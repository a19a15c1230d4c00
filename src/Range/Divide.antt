-- ===== src/Range/Divide.antt =====
-- What METADATA and the master have of the two ranges once a split is through, read back from what was
-- written.
use hypertable.Base.{
  ℕ, ◌≡◌, ◌≢◌, ◌⊎◌, inl, inr, refl, sym, ap, ◌∙◌, Bool, true, false, not, ◌&&◌, ◌||◌, Bool-cases,
  List, [], ◌∷◌, ◌++◌, Option, none, some, Option-cases, arith, ◌==◌, if◌then◌else◌,
}
use Prim.Native.Nat.{Ordering}
use hypertable.ByteString.Order.{lex, lex-eq, lex_trans, lex-flip, lex_refl, is_lt, is_eq}
use mathlib.Core.Path.{subst}
use hypertable.Deletes.{same}
use hypertable.Deletes.Newest.{same-eq, same_refl}
use hypertable.Types.{steady}
use hypertable.Range.{
  AccessGroup, MetaWrite, split_shrunk, World, Range, Environment, completed, overflow, refused,
  Step, determine_split_row, spec, write_files, Report, split_install_log, split_compact_and_shrink,
  split_report, split_notify_master, shrink_and_notify, after_install, run_split, split, grow_limit,
  tried_row,
}
use hypertable.Range.Split.{
  determine_split_row-inside, installed, installed_world, run_split-steady, done, split-run,
}

-- The start row that METADATA has for an end row: the one written last, or else `before`.
pub metadata_start : List MetaWrite → List ℕ → Option (List ℕ) → Option (List ℕ)
metadata_start [] end before = before
metadata_start (MetaWrite.start_row e start ∷ ms) end before =
    metadata_start ms end (if same e end then some start else before)
metadata_start (MetaWrite.files e name fs ∷ ms) end before = metadata_start ms end before

-- The files that METADATA has for an access group of the range with an end row.
pub metadata_files : List MetaWrite → List ℕ → List ℕ → Option (List ℕ) → Option (List ℕ)
metadata_files [] end name before = before
metadata_files (MetaWrite.start_row e start ∷ ms) end name before =
    metadata_files ms end name before
metadata_files (MetaWrite.files e n fs ∷ ms) end name before =
    metadata_files ms end name (if same e end && same n name then some fs else before)

-- The files of the access group with a name, or `before` where there is no such group.
pub group_files : List AccessGroup → List ℕ → Option (List ℕ) → Option (List ℕ)
group_files [] name before = before
group_files (g ∷ gs) name before =
    group_files gs name (if same g.name name then some g.files else before)

-- Whether a row lies behind a start row and not behind an end row.
pub lies_within : List ℕ → List ℕ → List ℕ → Bool
lies_within start end row = is_lt (lex start row) && not (is_lt (lex end row))

metadata_start-append :
    (ms ns : List MetaWrite) (end : List ℕ) (before : Option (List ℕ))
    → metadata_start (ms ++ ns) end before ≡ metadata_start ns end (metadata_start ms end before)
unfolding metadata_start
metadata_start-append [] ns end before = refl
metadata_start-append (MetaWrite.start_row e start ∷ ms) ns end before =
    metadata_start-append ms ns end _
metadata_start-append (MetaWrite.files e name fs ∷ ms) ns end before =
    metadata_start-append ms ns end before

metadata_files-append :
    (ms ns : List MetaWrite) (end name : List ℕ) (before : Option (List ℕ))
    → metadata_files (ms ++ ns) end name before
      ≡ metadata_files ns end name (metadata_files ms end name before)
unfolding metadata_files
metadata_files-append [] ns end name before = refl
metadata_files-append (MetaWrite.start_row e start ∷ ms) ns end name before =
    metadata_files-append ms ns end name before
metadata_files-append (MetaWrite.files e n fs ∷ ms) ns end name before =
    metadata_files-append ms ns end name _

metadata_start-write_files :
    (row : List ℕ) (gs : List AccessGroup) (end : List ℕ) (before : Option (List ℕ))
    → metadata_start (write_files row gs) end before ≡ before
unfolding metadata_start write_files
metadata_start-write_files row [] end before = refl
metadata_start-write_files row (g ∷ gs) end before = metadata_start-write_files row gs end before

metadata_files-write_files :
    (row : List ℕ) (gs : List AccessGroup) (name : List ℕ) (before : Option (List ℕ))
    → metadata_files (write_files row gs) row name before ≡ group_files gs name before
unfolding metadata_files write_files group_files
metadata_files-write_files row [] name before = refl
metadata_files-write_files row (g ∷ gs) name before =
    rw (same_refl row, metadata_files) (metadata_files-write_files row gs name _)

same-other : (p q : List ℕ) → p ≢ q → same p q ≡ false
same-other p q h = elim (Bool-cases (same p q)) [ inl e ↦ absurd (h (same-eq p q e)) | inr e ↦ e ]

metadata_files-other :
    (row end : List ℕ) (gs : List AccessGroup) (name : List ℕ) (before : Option (List ℕ))
    → end ≢ row
    → metadata_files (write_files row gs) end name before ≡ before
unfolding metadata_files write_files
metadata_files-other row end [] name before h = refl
metadata_files-other row end (g ∷ gs) name before h =
    rw (same-other row end (λ e. h (sym e)), metadata_files)
      (metadata_files-other row end gs name before h)

behind :
    (start row x : List ℕ)
    → lex row start ≢ Ordering.lt
    → lex row x ≡ Ordering.lt
    → lex start x ≡ Ordering.lt
behind start row x h k = elim (Bool-cases (is_eq (lex row start))) [
  | inl e ↦ subst (λ p. lex p x ≡ Ordering.lt) (lex-eq row start (ground (arith, e))) k
  | inr n ↦ lex_trans start row x (ground (arith, lex-flip row start)) k
]

-- A row of the range is in one of the two parts, and in one only.
within-parts :
    (start row end x : List ℕ)
    → lex row start ≢ Ordering.lt
    → lex row end ≡ Ordering.lt
    → (lies_within start end x ≡ (lies_within start row x || lies_within row end x))
      × ((lies_within start row x && lies_within row end x) ≡ false)
unfolding lies_within
within-parts start row end x h k =
    (ground (arith, behind start row x h, lex_trans row end x k), ground arith)

-- What a split at a row adds to METADATA.
abbrev divided : Environment → Range → List ℕ → List MetaWrite → List MetaWrite
divided env r row ms =
    ms
    ++ (MetaWrite.start_row r.end_row row
        ∷ MetaWrite.start_row row r.start_row
        ∷ write_files row env.groups)

module _ (env : Environment) (r : Range) (row : List ℕ) (ms : List MetaWrite) where
  metadata_start-divided :
      (end : List ℕ)
      → metadata_start (divided env r row ms) end none ≡ (
          if same row end
          then some r.start_row
          else if same r.end_row end
          then some row
          else metadata_start ms end none)
  unfolding metadata_start
  metadata_start-divided end =
      metadata_start-append ms _ end none ∙ metadata_start-write_files row env.groups end _

  metadata_files-divided :
      (end name : List ℕ)
      → metadata_files (divided env r row ms) end name none
        ≡ metadata_files (write_files row env.groups) end name (metadata_files ms end name none)
  unfolding metadata_files
  metadata_files-divided end name = metadata_files-append ms _ end name none

-- The master is told of the rows up to the split row; if it refuses, it can be told the same again.
abbrev IsTold : Environment → Range → World → List ℕ → Step → Type 0
IsTold env r w row result =
    (report : Report) × (result.2.reports ≡ w.reports ++ (report ∷ []))
    × (report.range ≡ spec r.start_row row)
    × (report.transfer_log ≡ some (env.transfer_log row))
    × (env.report_split report ≡ 0
        → (result.0 ≡ completed)
          × (result.1.state.state ≡ steady)
          × (result.1.state.soft_limit ≡ report.soft_limit)
          × (result.1.state.transfer_log ≡ none))
    × (env.report_split report ≢ 0
        → (result.0 ≡ refused (env.report_split report))
          × (result.1.state.state ≡ split_shrunk)
          × (split_report env result.1 ≡ report))

-- A split at a row, whatever the master answers.
pub record Divides (env : Environment) (r : Range) (w : World) (row : List ℕ) (result : Step)
    : Type 0 where
  pub start_row : result.1.start_row ≡ row
  pub end_row : result.1.end_row ≡ r.end_row
  pub either :
      (x : List ℕ)
      → lies_within r.start_row r.end_row x
        ≡ (lies_within r.start_row row x || lies_within row r.end_row x)
  pub not_both :
      (x : List ℕ) → (lies_within r.start_row row x && lies_within row r.end_row x) ≡ false
  pub kept : metadata_start result.2.metadata r.end_row none ≡ some row
  pub given : metadata_start result.2.metadata row none ≡ some r.start_row
  pub other_starts :
      (end : List ℕ)
      → end ≢ r.end_row
      → end ≢ row
      → metadata_start result.2.metadata end none ≡ metadata_start w.metadata end none
  pub files :
      (name : List ℕ)
      → metadata_files result.2.metadata row name none
        ≡ group_files env.groups name (metadata_files w.metadata row name none)
  pub other_files :
      (end name : List ℕ)
      → end ≢ row
      → metadata_files result.2.metadata end name none ≡ metadata_files w.metadata end name none
  pub told : IsTold env r w row result

run_split-overflow :
    (env : Environment) (r : Range) (w : World)
    → r.state.state ≡ steady
    → determine_split_row env.groups r.start_row r.end_row ≡ none
    → run_split env r w
      ≡ (overflow, record r { row_overflow = true; split_row = tried_row env.groups r }, w)
unfolding run_split split_install_log
run_split-overflow env r w s n =
    let b : (r.state.state == steady) ≡ true = ground arith in
    rw (b, n, split_install_log) (unfold after_install in refl)

module _ (env : Environment) (r : Range) (w : World) (row : List ℕ) where
  -- What METADATA says, in a step that leaves the right rows and reports.
  Divides-metadata :
      (result : Step)
      → lex row r.start_row ≢ Ordering.lt
      → lex row r.end_row ≡ Ordering.lt
      → result.1.start_row ≡ row
      → result.1.end_row ≡ r.end_row
      → result.2.metadata ≡ divided env r row w.metadata
      → IsTold env r w row result
      → Divides env r w row result
  Divides-metadata result h k start end written told = record {
    start_row = start;
    end_row = end;
    either = λ x. (within-parts r.start_row row r.end_row x h k).0;
    not_both = λ x. (within-parts r.start_row row r.end_row x h k).1;
    kept = rw written (
        metadata_start-divided env r row w.metadata r.end_row
        ∙ rw (same-other row r.end_row apart, same_refl r.end_row) refl);
    given = rw written (metadata_start-divided env r row w.metadata row ∙ rw (same_refl row) refl);
    other_starts = λ end p q. rw written (
        metadata_start-divided env r row w.metadata end
        ∙ rw (same-other row end (λ e. q (sym e)), same-other r.end_row end (λ e. p (sym e))) refl);
    files = λ name. rw written (
        metadata_files-divided env r row w.metadata row name
        ∙ metadata_files-write_files row env.groups name _);
    other_files = λ end name p. rw written (
        metadata_files-divided env r row w.metadata end name
        ∙ metadata_files-other row end env.groups name _ p);
    told = told;
  }
    where
      apart : row ≢ r.end_row
      apart e = ground (arith, k, ap (λ p. lex row p) (sym e) ∙ lex_refl row)

  Divides-shrunk :
      lex row r.start_row ≢ Ordering.lt
      → lex row r.end_row ≡ Ordering.lt
      → Divides env r w row
          (done (shrink_and_notify env (installed env r row) (installed_world env r w row)))
  unfolding split_compact_and_shrink split_notify_master split_report
  Divides-shrunk h k =
      let report : Report = record {
        range = spec r.start_row row;
        transfer_log = some (env.transfer_log row);
        soft_limit = grow_limit env.range_max_bytes r.state.soft_limit;
      } in
      elim (Bool-cases (env.report_split report == 0)) [
        | inl e ↦ rw e (
            Divides-metadata _ h k refl refl refl
              (report, refl, refl, refl, λ z. (refl, refl, refl, refl), λ n. ground (arith, e)))
        | inr e ↦ rw e (
            Divides-metadata _ h k refl refl refl
              (report, refl, refl, refl, λ z. ground (arith, e), λ n. (refl, refl, refl)))
      ]

-- A split of a steady range that is in maintenance and is not the root, whatever the rows of its
-- access groups and whatever the master answers. Where no split row is found it ends with an
-- overflow, the range's rows and state are as they were, and nothing is written. Where one is
-- found, each row behind the start row and up to the end row lies in just one of two parts: up to
-- the split row, and behind it. The range then has the second part. Read back from what was written
-- to METADATA, the second part starts at the split row and the first one at the old start row, the
-- first one has the files of each access group, and what it says of other ranges is as before. The
-- master is told once, of the first part and its transfer log. Where it accepts, the split is
-- completed, and the state is steady with the soft limit that was told. Where it refuses, the split
-- ends with its code, and the state has what is needed to tell it the same again.
pub split-Divides :
    (env : Environment) (r : Range) (w : World)
    → r.maintenance ≡ true
    → r.is_root ≡ false
    → r.state.state ≡ steady
    → ((determine_split_row env.groups r.start_row r.end_row ≡ none)
        × ((split env r w).0 ≡ overflow)
        × ((split env r w).1.start_row ≡ r.start_row)
        × ((split env r w).1.end_row ≡ r.end_row)
        × ((split env r w).1.state ≡ r.state)
        × ((split env r w).2 ≡ w))
      ⊎ (row : List ℕ) × (determine_split_row env.groups r.start_row r.end_row ≡ some row)
        × Divides env r w row (split env r w)
split-Divides env r w m root s =
    elim (Option-cases (determine_split_row env.groups r.start_row r.end_row)) [
      | inl n ↦ inl (
          rw (split-run env r w m root, run_split-overflow env r w s n)
            (n, refl, refl, refl, refl, refl))
      | inr (row, e) ↦
          let (h, k) = determine_split_row-inside env.groups r.start_row r.end_row row e in
          inr (
            row,
            e,
            rw (split-run env r w m root, run_split-steady env r w row s e)
                (Divides-shrunk env r w row h k),
          )
    ]
