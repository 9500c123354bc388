-- ===== src/Lsp/Protocol/RoundTrip.antt =====
-- What write_message writes, read_message reads (apiverity/lsp/protocol.py).
use mathlib.Core.List.{append_assoc}
use api_verity_lab.Common.{ℕ, some, [], ◌++◌, ◌≡◌, refl, sym, ap, ◌∙◌, length}
use api_verity_lab.Lsp.Protocol.{
  Bytes, header_separator, length_prefix, found, read_header, split_lines, decimal, unstated, bytes,
  find_length, read_body, Loaded, object, message, read_object, read_length, read_message,
  write_message,
}
use api_verity_lab.Lsp.Protocol.Frame.{
  read_header-frame, split_lines-header, length_line-AllPlain, find_length-line, read_body-append,
}

module _ {M : Type 0} (loads : Bytes → Loaded M) (dumps : M → Bytes) where
  write_message-append :
      (m : M) (rest : Bytes)
      → write_message loads dumps m ++ rest
        ≡ (length_prefix ++ decimal (length (dumps m))) ++ (header_separator ++ (dumps m ++ rest))
  unfolding write_message
  write_message-append m rest =
      let body = dumps m in
      ap (λ t. length_prefix ++ t)
        (append_assoc (decimal (length body)) (header_separator ++ body) rest)
      ∙ sym (append_assoc length_prefix (decimal (length body)) (header_separator ++ body ++ rest))

  read_message-found :
      (stream header rest body after : Bytes) (n : ℕ) (m : M)
      → read_header [] stream ≡ found header rest
      → find_length unstated (split_lines header) ≡ bytes n
      → read_body n rest ≡ some (body, after)
      → loads body ≡ object m
      → read_message loads dumps stream ≡ message m after
  unfolding read_message
  read_message-found stream header rest body after n m at_header at_length at_body is_object =
      rw (at_header, read_message)
        (rw (at_length, read_length) (rw (at_body, read_length) (rw (is_object, read_object) refl)))

  -- If json.loads gives back the object that json.dumps wrote, for every object, read_message
  -- reads an object that write_message has written, whatever stands behind it in the stream, and
  -- leaves just that.
  pub read_message-write_message :
      (inverse : (m : M) → loads (dumps m) ≡ object m) (m : M) (rest : Bytes)
      → read_message loads dumps (write_message loads dumps m ++ rest) ≡ message m rest
  read_message-write_message inverse m rest =
      let line = length_prefix ++ decimal (length (dumps m)) in
      let is_plain = length_line-AllPlain (length (dumps m)) in
      ap (read_message loads dumps) (write_message-append m rest)
      ∙ read_message-found (line ++ (header_separator ++ (dumps m ++ rest)))
          (line ++ header_separator) (dumps m ++ rest) (dumps m) rest (length (dumps m)) m
          (read_header-frame line (dumps m ++ rest) is_plain)
          (ap (find_length unstated) (split_lines-header line is_plain)
            ∙ find_length-line (length (dumps m)))
          (read_body-append (dumps m) rest) (inverse m)
