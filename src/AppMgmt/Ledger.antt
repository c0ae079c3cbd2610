-- ===== src/AppMgmt/Ledger.antt =====
-- The handles that a server of app-mgmt-test opens and closes.
use trusty_app_sample.Common.{
  List, [], ap, append-nil, append_assoc, refl, sym, ℕ, ◌++◌, ◌∙◌, ◌∷◌, ◌≡◌,
}

-- The handles that were opened, newest first, and those that were closed, oldest first.
pub record Ledger : Type 0 where
  pub opened : List ℕ
  pub closed : List ℕ

abbrev pub no_handles : Ledger
no_handles = record { opened = []; closed = [] }

abbrev pub hold : ℕ → Ledger → Ledger
hold h l = record l { opened = h ∷ l.opened }

-- `close(h)`
abbrev pub close : ℕ → Ledger → Ledger
close h l = record l { closed = l.closed ++ (h ∷ []) }

-- Between the two, each handle that is opened is closed once, the last one first.
abbrev pub IsBalanced : Ledger → Ledger → Type 0
IsBalanced l l' = (d : List ℕ) × ((l'.opened ≡ d ++ l.opened) × (l'.closed ≡ l.closed ++ d))

pub IsBalanced-self : (l : Ledger) → IsBalanced l l
IsBalanced-self l = ([], (refl, sym (append-nil l.closed)))

-- A handle that is opened before a balanced part and closed after it.
pub IsBalanced-bracket :
    (h : ℕ) (l l' : Ledger) → IsBalanced (hold h l) l' → IsBalanced l (close h l')
IsBalanced-bracket h l l' (d, (o, c)) = (
  d ++ (h ∷ []),
  (
    o ∙ sym (append_assoc d (h ∷ []) l.opened),
    ap (λ x. x ++ (h ∷ [])) c ∙ append_assoc l.closed d (h ∷ []),
  ),
)

-- A balanced part from nothing closes exactly what it opens.
pub IsBalanced-closed : (l : Ledger) → IsBalanced no_handles l → l.closed ≡ l.opened
IsBalanced-closed l (d, (o, c)) = c ∙ sym (o ∙ append-nil d)
