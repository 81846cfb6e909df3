-- ===== src/Transport/Missing.antt =====
-- packages/dappdata/src/transport/missing.ts: which errors of a node mean that a chunk is not there. A
-- text is the list of its codes; the patterns ignore the letter case.
pub mod Patterns
use dappdata.Base.{
  ℕ, Bool, true, false, not, ◌&&◌, ◌||◌, Option, none, some, List, [], ◌∷◌, leb, ◌==◌,
}
use dappdata.Base.Hex.{Text, codes, to_lower_case}

abbrev pub starts_with : Text → Text → Bool
starts_with [] t = true
starts_with (a ∷ needle) [] = false
starts_with (a ∷ needle) (b ∷ t) = a == b && starts_with needle t

-- The needle stands somewhere in the text.
abbrev pub contains : Text → Text → Bool
contains needle [] = starts_with needle []
contains needle (c ∷ t) = starts_with needle (c ∷ t) || contains needle t

abbrev pub contains_any : List Text → Text → Bool
contains_any [] t = false
contains_any (needle ∷ rest) t = contains needle t || contains_any rest t

-- `MISSING_CHUNK`
abbrev pub missing_chunk : List Text
missing_chunk =
    codes "read chunk failed"
    ∷ codes "chunk not found"
    ∷ codes "not found"
    ∷ codes "internal server error"
    ∷ []

-- `MISSING_CHUNK.test`
unfoldable pub says_missing : Text → Bool
says_missing body = contains_any missing_chunk (to_lower_case body)

-- What a regular expression takes for the character of a word: `\w`.
abbrev pub is_word : ℕ → Bool
is_word c = leb 48 c && leb c 57 || leb 65 c && leb c 90 || c == 95 || leb 97 c && leb c 122

abbrev pub ends_word : Text → Bool
ends_word [] = true
ends_word (c ∷ t) = not (is_word c)

-- `404` stands at the front of the text, and no character of a word behind it.
abbrev pub at_404 : Text → Bool
at_404 (a ∷ b ∷ c ∷ t) = a == 52 && b == 48 && c == 52 && ends_word t
at_404 _ = false

-- `/\b404\b/`, behind a character that is one of a word or is not.
abbrev pub has_404 : Bool → Text → Bool
has_404 behind [] = false
has_404 behind (c ∷ t) = not behind && at_404 (c ∷ t) || has_404 (is_word c) t

-- The `responseBody` of an error: text, or another value, which its JSON stands for.
pub data ResponseBody : Type 0 where
  no_body : ResponseBody
  text_body json_body : Text → ResponseBody

-- An error of the node's client: its `status` and its `message`, where it has them.
pub record BeeError : Type 0 where
  pub status : Option ℕ
  pub message : Option Text
  pub response_body : ResponseBody

abbrev pub has_status : Option ℕ → ℕ → Bool
has_status none wanted = false
has_status (some status) wanted = status == wanted

-- `message ?? ""`
abbrev pub or_empty : Option Text → Text
or_empty none = []
or_empty (some message) = message

abbrev pub body_text : ResponseBody → Text
body_text no_body = []
body_text (text_body body) = body
body_text (json_body body) = body

unfoldable pub is_not_found : BeeError → Bool
is_not_found e =
    has_status e.status 404
    || has_404 false (or_empty e.message)
    || contains (codes "not found") (to_lower_case (or_empty e.message))

unfoldable pub is_unreadable_chunk : BeeError → Bool
unfolding says_missing
is_unreadable_chunk e =
    has_status e.status 500
    && (says_missing (or_empty e.message) || says_missing (body_text e.response_body))

unfoldable pub is_missing_chunk_response : ℕ → Text → Bool
unfolding says_missing
is_missing_chunk_response status body = status == 404 || status == 500 && says_missing body
