-- ===== src/Tests/Frames.antt =====
-- apiverity/lsp on a few frames.
use api_verity_lab.Common.{false, none, some, [], ◌∷◌, ◌++◌, ◌≡◌, ◌≢◌, refl}
use api_verity_lab.Lsp.Protocol.{Bytes, Loaded, object, message, read_message, write_message}
use api_verity_lab.Lsp.Protocol.RoundTrip.{read_message-write_message}
use api_verity_lab.Lsp.Serve.{serve}
use api_verity_lab.Lsp.Serve.Frames.{frames, serve-frames}
use api_verity_lab.Lsp.Serve.Ends.{serve-total}

-- messages that are their own text
abbrev loads : Bytes → Loaded Bytes
loads body = object body

abbrev dumps : Bytes → Bytes
dumps m = m

-- `{}`, and the start of a frame
abbrev braces : Bytes
braces = 123 ∷ 125 ∷ []

abbrev cut_frame : Bytes
cut_frame = 67 ∷ 111 ∷ 13 ∷ 10 ∷ []

read_message-write_message_example :
    read_message loads dumps (write_message loads dumps braces ++ cut_frame)
    ≡ message braces cut_frame
read_message-write_message_example =
    read_message-write_message loads dumps (λ m. refl) braces cut_frame

serve-frames_example :
    serve loads dumps (λ m. false) 3 (frames (write_message loads dumps) (braces ∷ [] ∷ []))
    ≡ some (braces ∷ [] ∷ [], 0)
serve-frames_example =
    serve-frames loads dumps (λ m. false) (λ m. refl) (braces ∷ [] ∷ []) (refl, (refl, tt))

serve-total_example : serve loads dumps (λ m. false) 5 cut_frame ≢ none
serve-total_example = serve-total loads dumps (λ m. false) cut_frame
