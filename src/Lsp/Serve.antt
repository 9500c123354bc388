-- ===== src/Lsp/Serve.antt =====
-- The main loop of apiverity/lsp/server.py, over the messages that it hands to _dispatch.
pub mod Frames
pub mod Ends
use api_verity_lab.Common.{
  ℕ, zero, suc, Bool, true, false, Option, none, some, List, [], ◌∷◌, if◌then◌else◌,
}
use api_verity_lab.Lsp.Protocol.{Bytes, Loaded, Read, message, end_of_stream, error, read_message}

-- The messages that were dispatched, in their order, and the exit status.
abbrev pub Served : Type 0 → Type 0
Served M = List M × ℕ

unfoldable pub before : {M : Type 0} → M → Option (Served M) → Option (Served M)
before m none = none
before m (some (ms, status)) = some (m ∷ ms, status)

-- `is_exit` tells the messages that _dispatch hands to _on_exit, which ends the loop after them.
module _ {M : Type 0} (loads : Bytes → Loaded M) (dumps : M → Bytes) (is_exit : M → Bool) where
  -- none without fuel
  unfoldable pub serve : ℕ → Bytes → Option (Served M)
  unfolding before
  serve zero stream = none
  serve (suc fuel) stream = elim (read_message loads dumps stream) [
    | error e ↦ some ([], 1)
    | end_of_stream ↦ some ([], 0)
    | message m rest ↦
        let on = serve fuel rest in if is_exit m then some (m ∷ [], 0) else before m on
  ]
