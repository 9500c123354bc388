-- ===== src/Lsp/Serve/Frames.antt =====
-- The messages that a client writes are the ones that the loop dispatches.
use api_verity_lab.Common.{
  ℕ, suc, Bool, false, some, List, [], ◌∷◌, ◌++◌, ◌≡◌, refl, ap, ◌∙◌, All, length,
}
use api_verity_lab.Lsp.Protocol.{
  Bytes, Loaded, object, message, read_header, ends_header, onto, read_message, write_message,
}
use api_verity_lab.Lsp.Protocol.RoundTrip.{read_message-write_message}
use api_verity_lab.Lsp.Serve.{before, serve}

-- what a client has written for these messages
unfoldable pub frames : {M : Type 0} → (M → Bytes) → List M → Bytes
frames write [] = []
frames write (m ∷ ms) = write m ++ frames write ms

module _ {M : Type 0} (loads : Bytes → Loaded M) (dumps : M → Bytes) (is_exit : M → Bool) where
  serve-message :
      (fuel : ℕ) (stream rest : Bytes) (m : M)
      → read_message loads dumps stream ≡ message m rest
      → is_exit m ≡ false
      → serve loads dumps is_exit (suc fuel) stream ≡ before m (serve loads dumps is_exit fuel rest)
  unfolding serve
  serve-message fuel stream rest m h stays = rw (h, serve) (rw stays refl)

  -- If json.loads gives back the object that json.dumps wrote, for every object, then the loop
  -- of the server dispatches the messages that write_message has written to its input, all of them
  -- and in their order, and ends with status 0, if none of them is an exit.
  pub serve-frames :
      (inverse : (m : M) → loads (dumps m) ≡ object m) (ms : List M)
      → All (λ m. is_exit m ≡ false) ms
      → serve loads dumps is_exit (suc (length ms)) (frames (write_message loads dumps) ms)
        ≡ some (ms, 0)
  unfolding frames serve before read_message read_header ends_header onto
  serve-frames inverse [] h = refl
  serve-frames inverse (m ∷ ms) h =
      serve-message (suc (length ms))
        (write_message loads dumps m ++ frames (write_message loads dumps) ms)
        (frames (write_message loads dumps) ms) m
        (read_message-write_message loads dumps inverse m (frames (write_message loads dumps) ms))
        h.0
      ∙ ap (before m) (serve-frames inverse ms h.1)
