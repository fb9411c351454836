-- ===== src/Targeting/Boundary/Scan.antt =====
-- classifyFile of internal/semantic/targeting/import_boundary.go stops early, and misses nothing.
use zero_trust_sh.Prelude.{
  ℕ, zero, suc, Bool, true, List, [], ◌∷◌, ◌≡◌, sym, ◌∙◌, ◌||◌, any, take, some, Bool-cases, inl,
  inr, arith,
}
use zero_trust_sh.Prelude.Text.{Bytes}
use zero_trust_sh.Targeting.Boundary.{
  BoundaryKind, ImportTables, imports_one, mark, scan, is_all, boundary_none, classify_lines,
  max_import_lines,
}

-- Some line contains some package of the table.
abbrev pub imports_any : List Bytes → List Bytes → Bool
imports_any packages lines = any (λ line. imports_one packages line) lines

abbrev pub marks : ImportTables → BoundaryKind → List Bytes → BoundaryKind
marks t b lines = record {
  source = b.source || imports_any t.srcs lines;
  sink = b.sink || imports_any t.sinks lines;
  auth = b.auth || imports_any t.auths lines;
  storage = b.storage || imports_any t.stores lines;
}

marks-nil : (t : ImportTables) (b : BoundaryKind) → marks t b [] ≡ b
unfolding any
marks-nil t b = ground arith

marks-cons :
    (t : ImportTables) (b : BoundaryKind) (line : Bytes) (lines : List Bytes)
    → marks t (mark t b line) lines ≡ marks t b (line ∷ lines)
unfolding any mark
marks-cons t b line lines = ground arith

marks-all :
    (t : ImportTables) (b : BoundaryKind) (lines : List Bytes)
    → is_all b ≡ true
    → marks t b lines ≡ b
unfolding is_all
marks-all t b lines h = ground arith

scan-marks :
    (t : ImportTables) (n : ℕ) (b : BoundaryKind) (lines : List Bytes)
    → scan t n b lines ≡ marks t b (take n lines)
unfolding scan
scan-marks t zero b lines = sym (marks-nil t b)
scan-marks t (suc n) b [] = sym (marks-nil t b)
scan-marks t (suc n) b (line ∷ lines) = elim (Bool-cases (is_all (mark t b line))) [
  | inl e ↦
      rw (e, scan)
        (sym (marks-all t (mark t b line) (take n lines) e) ∙ marks-cons t b line (take n lines))
  | inr e ↦ rw (e, scan) (scan-marks t n (mark t b line) lines ∙ marks-cons t b line (take n lines))
]

-- The early stop changes nothing: a readable file gets exactly the bits of the tables of which some
-- package is imported in one of its first 250 lines.
pub classify_lines_lem :
    (t : ImportTables) (lines : List Bytes)
    → classify_lines t (some lines) ≡ record {
      source = imports_any t.srcs (take max_import_lines lines);
      sink = imports_any t.sinks (take max_import_lines lines);
      auth = imports_any t.auths (take max_import_lines lines);
      storage = imports_any t.stores (take max_import_lines lines);
    }
unfolding classify_lines
classify_lines_lem t lines = scan-marks t max_import_lines boundary_none lines
