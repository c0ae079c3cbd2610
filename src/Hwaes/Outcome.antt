-- ===== src/Hwaes/Outcome.antt =====
-- What an operation of hwaes/main.c accepts and writes.
use trusty_app_sample.Common.{List, false, is_some, length, none, some, ℕ, ◌≡◌, ◌≢◌}
use trusty_app_sample.Hwaes.{Args, Checked, Done, is_present, no_error, passed, refused}
use trusty_app_sample.Hwaes.Checks.{IsWellFormed}

-- Either an error with nothing written; or an error of the update of the text, which may have written
-- a part, with no tag, for a well-formed request; or as many bytes as `text_out` has, for a well-formed
-- request; on success the tag is there just if there is room for it, and without room it never is.
pub data IsOutcome {W : Type 0} (args : Args) (done : Done W) : Type 0 where
  rejected : done.rc ≢ no_error → done.text ≡ none → done.tag ≡ none → IsOutcome args done
  failed_update : IsWellFormed args → done.rc ≢ no_error → done.tag ≡ none → IsOutcome args done
  written :
      IsWellFormed args
      → (text : List ℕ) → done.text ≡ some text
      → length text ≡ args.text_out.len
      → (done.rc ≡ no_error → is_some done.tag ≡ is_present args.tag_out)
      → (is_present args.tag_out ≡ false → done.tag ≡ none)
      → IsOutcome args done

abbrev Refuses : {W : Type 0} → Checked (List ℕ) × W → Type 0
Refuses (refused rc, w) = rc ≢ no_error
Refuses (passed key, w) = Unit
