-- ===== src/Tasks/Approval.antt =====
-- internal/agent/approval.go: the preview of an email that waits for approval. The decoding of the
-- JSON arguments is a parameter.
use kaggen.Base.{
  ℕ, not, ltb, if◌then◌else◌, Option, none, some, List, ◌++◌, Text, codes, ◌is◌, length, take,
}

pub record EmailPreview : Type 0 where
  pub to : List Text
  pub cc : List Text
  pub subject : Text
  pub body : Text

pub record EmailArgs : Type 0 where
  pub action : Text
  pub to : List Text
  pub cc : List Text
  pub subject : Text
  pub body : Text

abbrev pub email_preview_limit : ℕ
email_preview_limit = 1000

-- `truncate(s, max)`.
unfoldable pub truncate : Text → ℕ → Text
truncate s max = if ltb max (length s) then take max s ++ codes "..." else s

abbrev email_preview : EmailArgs → EmailPreview
unfolding truncate
email_preview v = record {
  to = v.to;
  cc = v.cc;
  subject = v.subject;
  body = truncate v.body email_preview_limit;
}

unfoldable pub extract_email_preview : (Text → Option EmailArgs) → Text → Text → Option EmailPreview
unfolding truncate
extract_email_preview unmarshal tool_name raw_args =
    if not (tool_name is codes "email") then none else (elim (unmarshal raw_args) [
      | none ↦ none
      | some v ↦ if v.action is codes "send" then some (email_preview v) else none
    ])
