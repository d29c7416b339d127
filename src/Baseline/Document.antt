-- ===== src/Baseline/Document.antt =====
-- Reading back the baseline document of internal/baseline/baseline.go.
use gruff_go.Base.{
  ℕ, ◌+◌, ◌≡◌, refl, ◌↔◌, ◌≢◌, ◌∙◌, ◌++◌, sym, ap, subst, length, inl, inr, true, false, ◌||◌, List,
  [], ◌∷◌, map, Option, some, none, Text, arith, All, text_eq, text_eq_iff, Bool-cases,
  Option-cases, IsSorted, is_gt, text_compare_total, sort_by-IsSorted, All-sort_by,
}
use gruff_go.Finding.{Finding, is_empty}
use gruff_go.Baseline.Entries.{
  Entry, BaselineFile, schema_version, compare_entries, entry_of, from_findings, Parsed, parsed,
  rejected, decode_failed, unsupported_schema, incomplete_entry, is_incomplete, first_incomplete,
  check_file, parse, marshal,
}
use gruff_go.Baseline.Apply.{apply}

-- A row has what every row needs: a rule, a file and a fingerprint.
abbrev pub IsComplete : Entry → Type 0
IsComplete e = (e.rule_id ≢ []) × (e.file ≢ []) × (e.fingerprint ≢ [])

incomplete_iff : (e : Entry) → (is_incomplete e ≡ false) ↔ IsComplete e
incomplete_iff e = go e.rule_id e.file e.fingerprint
  where
    go :
        (r f p : Text)
        → ((is_empty r || is_empty f || is_empty p) ≡ false) ↔ ((r ≢ []) × (f ≢ []) × (p ≢ []))
    go [] f p = (λ h. absurd (cc), λ h. absurd (h.0 refl))
    go (a ∷ r) [] p = (λ h. absurd (cc), λ h. absurd (h.1 refl))
    go (a ∷ r) (b ∷ f) [] = (λ h. absurd (cc), λ h. absurd (h.2 refl))
    go (a ∷ r) (b ∷ f) (c ∷ p) = (λ h. (λ e. cc, λ e. cc, λ e. cc), λ h. refl)

first_incomplete-none : (i : ℕ) (es : List Entry) → All IsComplete es → first_incomplete i es ≡ none
unfolding first_incomplete
first_incomplete-none i [] h = refl
first_incomplete-none i (e ∷ es) h =
    rw ((incomplete_iff e).1 h.0) (first_incomplete-none (i + 1) es h.1)

-- The first row that lacks something, with complete rows before it.
abbrev pub IsFirstIncomplete : ℕ → List Entry → Type 0
IsFirstIncomplete n rows =
    (before : List Entry) × (row : Entry) × (after : List Entry) × (rows ≡ before ++ (row ∷ after))
    × (length before ≡ n)
    × All IsComplete before
    × ¬ IsComplete row

-- What the validation loop finds, from an index on.
abbrev Found : ℕ → List Entry → Option ℕ → Type 0
Found i es none = All IsComplete es
Found i es (some j) = (n : ℕ) × (j ≡ i + n) × IsFirstIncomplete n es

Found-cons :
    (i : ℕ) (e : Entry) (es : List Entry) (o : Option ℕ)
    → IsComplete e
    → Found (i + 1) es o
    → Found i (e ∷ es) o
Found-cons i e es none c h = (c, h)
Found-cons i e es (some j) c (n, at, (before, row, after, split, long, complete, not)) = (
  n + 1,
  omega (arith, at),
  (e ∷ before, row, after, ap (λ r. e ∷ r) split, omega (arith, long), (c, complete), not),
)

first_incomplete-Found : (i : ℕ) (es : List Entry) → Found i es (first_incomplete i es)
unfolding first_incomplete
first_incomplete-Found i [] = tt
first_incomplete-Found i (e ∷ es) = elim (Bool-cases (is_incomplete e)) [
  | inl t ↦
      rw t (0, omega arith, ([], e, es, refl, refl, tt, λ c. let f = (incomplete_iff e).1 c in cc))
  | inr f ↦ rw f (Found-cons i e es _ ((incomplete_iff e).0 f) (first_incomplete-Found (i + 1) es))
]

-- What Parse says of a text: it returns the decoded document, of the current schema version and with
-- complete rows only; or it says that the decoder failed, that the version is another one, or which
-- is the first row that lacks something.
abbrev pub IsVerdict : Option BaselineFile → Parsed → Type 0
IsVerdict read (parsed b) =
    (read ≡ some b) × (b.schema ≡ schema_version) × All IsComplete b.findings
IsVerdict read (rejected decode_failed) = read ≡ none
IsVerdict read (rejected unsupported_schema) =
    (b : BaselineFile) × (read ≡ some b) × (b.schema ≢ schema_version)
IsVerdict read (rejected (incomplete_entry i)) =
    (b : BaselineFile) × (read ≡ some b)
    × (b.schema ≡ schema_version)
    × IsFirstIncomplete i b.findings

checked :
    (b : BaselineFile) (o : Option ℕ)
    → b.schema ≡ schema_version
    → Found 0 b.findings o
    → IsVerdict (some b) (elim o [ none ↦ parsed b | some i ↦ rejected (incomplete_entry i) ])
checked b none version h = (refl, version, h)
checked b (some j) version (n, at, first) =
    (b, refl, version, subst (λ i. IsFirstIncomplete i b.findings) (sym (at ∙ (omega arith))) first)

-- Parse returns the document that the decoder reads if its schema version is the current one and
-- every row has a rule, a file and a fingerprint. Otherwise its error is the one that fits: a text
-- that does not decode, another version, or the index of the first row that lacks one of the three.
pub parse-IsVerdict :
    (decode : Text → Option BaselineFile) (json : Text)
    → IsVerdict (decode json) (parse decode json)
unfolding parse check_file
parse-IsVerdict decode json = elim (Option-cases (decode json)) [
  | inl failed ↦ rw (failed, parse) refl
  | inr (b, read) ↦ elim (Bool-cases (text_eq b.schema schema_version)) [
    | inr other ↦
        rw (read, parse, other)
          (b, refl, λ same. let t = (text_eq_iff b.schema schema_version).1 same in cc)
    | inl version ↦
        rw (read, parse, version)
          (checked b _ ((text_eq_iff b.schema schema_version).0 version)
            (first_incomplete-Found 0 b.findings))
  ]
]

compare_entries_total :
    (x y : Entry) → is_gt (compare_entries x y) ≡ true → is_gt (compare_entries y x) ≡ false
unfolding compare_entries
compare_entries_total x y h = ground (
  arith,
  text_eq_iff x.file y.file,
  text_eq_iff y.file x.file,
  text_eq_iff x.rule_id y.rule_id,
  text_eq_iff y.rule_id x.rule_id,
  text_compare_total x.file y.file,
  text_compare_total x.rule_id y.rule_id,
  text_compare_total x.fingerprint y.fingerprint,
)

-- The resolved rows of a report are in the order of file, rule and fingerprint.
pub apply-resolved-IsSorted :
    (digest : Text → Text) (fs : List Finding) (b : BaselineFile)
    → IsSorted compare_entries (apply digest fs b).resolved
unfolding apply
apply-resolved-IsSorted digest fs b = sort_by-IsSorted compare_entries compare_entries_total _

-- The baseline written for a scan reads back as it was, where every finding has a rule, a file and a
-- fingerprint, the decoder reads what the encoder printed for this document, and a newline at the end
-- of a text does not matter to the decoder.
pub parse-marshal-from_findings :
    (digest : Text → Text) (encode : BaselineFile → Text) (decode : Text → Option BaselineFile)
    (fs : List Finding)
    → decode (encode (from_findings digest fs)) ≡ some (from_findings digest fs)
    → ((json : Text) → decode (json ++ (10 ∷ [])) ≡ decode json)
    → All (λ f. (f.rule_id ≢ []) × (f.file ≢ []) × (f.fingerprint ≢ [])) fs
    → parse decode (marshal encode (from_findings digest fs)) ≡ parsed (from_findings digest fs)
unfolding from_findings marshal parse check_file
parse-marshal-from_findings digest encode decode fs faithful blind complete =
    let read = blind (encode (from_findings digest fs)) ∙ faithful in
    let rows =
      first_incomplete-none 0 (from_findings digest fs).findings
        (All-sort_by compare_entries _ _ (rows_complete fs complete)) in
    let version = (text_eq_iff schema_version schema_version).1 refl in
    rw (read, parse, version, rows) refl
  where
    rows_complete :
        (xs : List Finding)
        → All (λ f. (f.rule_id ≢ []) × (f.file ≢ []) × (f.fingerprint ≢ [])) xs
        → All IsComplete (map (entry_of digest) xs)
    rows_complete [] h = tt
    rows_complete (x ∷ xs) h = (unfold entry_of in h.0, rows_complete xs h.1)
