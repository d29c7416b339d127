-- ===== src/Finding/Subject.antt =====
-- The identity subjects of internal/finding/contract_identity.go.
use gruff_go.Base.{ℕ, ◌≡◌, ◌≢◌, refl, ap, true, false, [], ◌∷◌, ◌++◌, Text, arith, All}
use gruff_go.Finding.Types.{Finding}
use gruff_go.Finding.Identity.{
  NumberScan, outside, whole, fraction, replace_numbers, is_digit, scan_mode, scan_output,
  has_contract_metric_metadata, identity_bytes, contract_subject, compute_contract_stable_identity,
  starts_with_digit,
}

abbrev pub NoDigit : ℕ → Type 0
NoDigit c = is_digit c ≡ false

-- What the number replacement returns has no decimal digit, whatever the state it starts in.
pub replace_numbers-NoDigit : (m : NumberScan) (s : Text) → All NoDigit (replace_numbers m s)
unfolding replace_numbers
replace_numbers-NoDigit m [] = tt
replace_numbers-NoDigit outside (c ∷ s) =
    ground (arith, replace_numbers-NoDigit (scan_mode outside c s) s)
replace_numbers-NoDigit whole (c ∷ s) =
    ground (arith, replace_numbers-NoDigit (scan_mode whole c s) s)
replace_numbers-NoDigit fraction (c ∷ s) =
    ground (arith, replace_numbers-NoDigit (scan_mode fraction c s) s)

abbrev pub IsDigit : ℕ → Type 0
IsDigit c = is_digit c ≡ true

-- Inside a number further digits print nothing.
replace_numbers-whole :
    (n b : Text) → All IsDigit n → replace_numbers whole (n ++ b) ≡ replace_numbers whole b
unfolding replace_numbers
replace_numbers-whole [] b h = refl
replace_numbers-whole (d ∷ n) b h = rw h.0 (replace_numbers-whole n b h.1)

replace_numbers-fraction :
    (n b : Text) → All IsDigit n → replace_numbers fraction (n ++ b) ≡ replace_numbers fraction b
unfolding replace_numbers
replace_numbers-fraction [] b h = refl
replace_numbers-fraction (d ∷ n) b h = rw h.0 (replace_numbers-fraction n b h.1)

-- Two numbers, each a non-empty run of digits, in the same place of a text.
module _ (d : ℕ) (n : Text) (d' : ℕ) (n' : Text) (b : Text) (digits : All IsDigit (d ∷ n))
    (digits' : All IsDigit (d' ∷ n')) where
  number_at :
      (m : NumberScan) → replace_numbers m ((d ∷ n) ++ b) ≡ replace_numbers m ((d' ∷ n') ++ b)
  unfolding replace_numbers
  number_at outside =
      rw (digits.0, digits'.0)
        (cc (replace_numbers-whole n b digits.1, replace_numbers-whole n' b digits'.1))
  number_at whole =
      rw (digits.0, digits'.0)
        (cc (replace_numbers-whole n b digits.1, replace_numbers-whole n' b digits'.1))
  number_at fraction =
      rw (digits.0, digits'.0)
        (cc (replace_numbers-fraction n b digits.1, replace_numbers-fraction n' b digits'.1))

  starts_alike :
      (a : Text)
      → starts_with_digit (a ++ ((d ∷ n) ++ b)) ≡ starts_with_digit (a ++ ((d' ∷ n') ++ b))
  starts_alike [] = cc (digits.0, digits'.0)
  starts_alike (c ∷ a) = refl

  scan_alike :
      (m : NumberScan) (c : ℕ) (a : Text)
      → scan_mode m c (a ++ ((d ∷ n) ++ b)) ≡ scan_mode m c (a ++ ((d' ∷ n') ++ b))
  scan_alike outside c a = refl
  scan_alike whole c a = rw (starts_alike a)
  scan_alike fraction c a = refl

  pub replace_numbers-measured :
      (m : NumberScan) (a : Text)
      → replace_numbers m (a ++ ((d ∷ n) ++ b)) ≡ replace_numbers m (a ++ ((d' ∷ n') ++ b))
  unfolding replace_numbers
  replace_numbers-measured m [] = number_at m
  replace_numbers-measured m (c ∷ a) =
      let next = scan_mode m c (a ++ ((d' ∷ n') ++ b)) in
      rw (scan_alike m c a) (ap (scan_output m next c) (replace_numbers-measured next a))

-- Two findings with the same rule, file and symbol, which both have or both lack metric metadata,
-- and whose messages differ in one run of digits only, have the same contract-stable identity: a
-- measured value may drift and the finding is still recognised.
pub contract_identity-measured :
    (digest : Text → Text) (f g : Finding) (a b n n' : Text) (d d' : ℕ)
    → f.rule_id ≡ g.rule_id
    → f.file ≡ g.file
    → f.symbol ≡ g.symbol
    → has_contract_metric_metadata f.metadata ≡ has_contract_metric_metadata g.metadata
    → All IsDigit (d ∷ n)
    → All IsDigit (d' ∷ n')
    → f.message ≡ a ++ ((d ∷ n) ++ b)
    → g.message ≡ a ++ ((d' ∷ n') ++ b)
    → compute_contract_stable_identity digest f ≡ compute_contract_stable_identity digest g
unfolding compute_contract_stable_identity
contract_identity-measured digest f g a b n n' d d' er ef es em dn dn' mf mg =
    ap digest (cc (er, ef, contract_subject-measured))
  where
    contract_subject-measured : contract_subject f ≡ contract_subject g
    contract_subject-measured =
        unfold contract_subject in
        rw (es, em, mf, mg) (rw (replace_numbers-measured d n d' n' b dn dn' outside a))

abbrev pub NotNul : ℕ → Type 0
NotNul c = c ≢ 0

-- The part of the hashed bytes before the first NUL is determined by the bytes.
nul_split :
    (a b s t : Text) → All NotNul a → All NotNul b → a ++ (0 ∷ s) ≡ b ++ (0 ∷ t) → (a ≡ b) × (s ≡ t)
nul_split [] [] s t na nb e = (refl, ground arith)
nul_split [] (d ∷ b) s t na nb e = ground arith
nul_split (c ∷ a) [] s t na nb e = ground arith
nul_split (c ∷ a) (d ∷ b) s t na nb e =
    let (same, rest) = nul_split a b s t na.1 nb.1 (ground arith) in (ground arith, rest)

-- The bytes that are hashed determine the rule, the file and the subject, if neither the rules nor
-- the files contain a NUL byte.
pub identity_bytes-injective :
    (rule file subject rule' file' subject' : Text)
    → All NotNul rule
    → All NotNul file
    → All NotNul rule'
    → All NotNul file'
    → identity_bytes rule file subject ≡ identity_bytes rule' file' subject'
    → (rule ≡ rule') × (file ≡ file') × (subject ≡ subject')
unfolding identity_bytes
identity_bytes-injective rule file subject rule' file' subject' nr nf nr' nf' e =
    let (r, rest) = nul_split rule rule' _ _ nr nr' e in
    let (f, s) = nul_split file file' _ _ nf nf' rest in (r, f, s)
