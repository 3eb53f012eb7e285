-- ===== src/Recovery/Latest.antt =====
-- src/recovery.cpp: what the reduction to the latest record of each page computes.
use toy_relational_database.Prelude.{
  ==_iff, All, Bool-cases, List, Option, Option-cases, [], ap, arith, false, if◌then◌else◌, inl,
  inr, ltb, lt→ltb, none, refl, some, sym, ℕ, ◌<◌, ◌==◌, ◌∙◌, ◌∷◌, ◌≡◌,
}
use toy_relational_database.Wal.{RecoveredPage}
use toy_relational_database.Wal.Append.{Ascending, Below}
use toy_relational_database.Recovery.{find_page, put_record, note_record, latest_from}

-- No page has two entries.
abbrev pub Distinct : List RecoveredPage → Type 0
Distinct [] = Unit
Distinct (r ∷ rs) = (find_page r.page_id rs ≡ none) × Distinct rs

find_page-put_record :
    (r : RecoveredPage) (p : ℕ) (xs : List RecoveredPage)
    → find_page p (put_record r xs) ≡ (if r.page_id == p then some r else find_page p xs)
unfolding find_page put_record
find_page-put_record r p [] = refl
find_page-put_record r p (x ∷ xs) = ground (arith, find_page-put_record r p xs)

put_record-Distinct :
    (r : RecoveredPage) (xs : List RecoveredPage) → Distinct xs → Distinct (put_record r xs)
unfolding put_record
put_record-Distinct r [] h = unfold find_page in (refl, tt)
put_record-Distinct r (x ∷ xs) h = elim (Bool-cases (x.page_id == r.page_id)) [
  | inl e ↦
      let same : x.page_id ≡ r.page_id = (==_iff x.page_id r.page_id).0 e in rw e (rw (← same) h)
  | inr e ↦
      let differ : (r.page_id == x.page_id) ≡ false = ground arith in
      rw e (find_page-put_record r x.page_id xs ∙ rw differ (h.0), put_record-Distinct r xs h.1)
]

put_record-Below :
    (n : ℕ) (r : RecoveredPage) (xs : List RecoveredPage)
    → r.lsn < n
    → Below n xs
    → Below n (put_record r xs)
unfolding put_record
put_record-Below n r [] h b = (h, tt)
put_record-Below n r (x ∷ xs) h b = elim (Bool-cases (x.page_id == r.page_id)) [
  | inl e ↦ rw e (h, b.1)
  | inr e ↦ rw e (b.0, put_record-Below n r xs h b.1)
]

find_page-Below :
    (n p : ℕ) (xs : List RecoveredPage) {old : RecoveredPage}
    → Below n xs
    → find_page p xs ≡ some old
    → old.lsn < n
unfolding find_page
find_page-Below n p [] b h = cc
find_page-Below n p (x ∷ xs) {old} b h = elim (Bool-cases (x.page_id == p)) [
  | inl e ↦ let same : x ≡ old = cc (rw e at h) in rw (← same) b.0
  | inr e ↦ find_page-Below n p xs b.1 (rw e at h)
]

-- In a log with growing LSNs every record replaces the entry of its page.
note_record_lem :
    (latest : List RecoveredPage) (r : RecoveredPage)
    → Below r.lsn latest
    → note_record latest r ≡ put_record r latest
unfolding note_record
note_record_lem latest r b = elim (Option-cases (find_page r.page_id latest)) [
  | inl e ↦ rw (e, note_record)
  | inr (old, e) ↦
      rw (e, note_record, lt→ltb old.lsn r.lsn (find_page-Below r.lsn r.page_id latest b e))
]

note_record-Distinct :
    (latest : List RecoveredPage) (r : RecoveredPage)
    → Distinct latest
    → Distinct (note_record latest r)
unfolding note_record
note_record-Distinct latest r h = elim (Option-cases (find_page r.page_id latest)) [
  | inl e ↦ rw (e, note_record) (put_record-Distinct r latest h)
  | inr (old, e) ↦ elim (Bool-cases (ltb old.lsn r.lsn)) [
    | inl newer ↦ rw (e, note_record, newer) (put_record-Distinct r latest h)
    | inr older ↦ rw (e, note_record, older) h
  ]
]

latest_from-Distinct :
    (latest rs : List RecoveredPage) → Distinct latest → Distinct (latest_from latest rs)
unfolding latest_from
latest_from-Distinct latest [] h = h
latest_from-Distinct latest (r ∷ rs) h =
    latest_from-Distinct (note_record latest r) rs (note_record-Distinct latest r h)

-- The last record of a page in a log.
unfoldable pub last_record : ℕ → List RecoveredPage → Option RecoveredPage
last_record p [] = none
last_record p (r ∷ rs) = elim (last_record p rs) [
  | none ↦ if r.page_id == p then some r else none
  | some later ↦ some later
]

abbrev or_else : Option RecoveredPage → Option RecoveredPage → Option RecoveredPage
or_else none o = o
or_else (some r) o = some r

last_record_cons :
    (p : ℕ) (r : RecoveredPage) (rs : List RecoveredPage) (o : Option RecoveredPage)
    → or_else (last_record p (r ∷ rs)) o
      ≡ or_else (last_record p rs) (if r.page_id == p then some r else o)
unfolding last_record
last_record_cons p r rs o = ground arith

abbrev AllBelow : List RecoveredPage → List RecoveredPage → Type 0
AllBelow latest rs = All (λ q. Below q.lsn latest) rs

put_record-AllBelow :
    (r : RecoveredPage) (latest rs : List RecoveredPage)
    → All (λ q. r.lsn < q.lsn) rs
    → AllBelow latest rs
    → AllBelow (put_record r latest) rs
put_record-AllBelow r latest [] h b = tt
put_record-AllBelow r latest (q ∷ rs) h b =
    (put_record-Below q.lsn r latest h.0 b.0, put_record-AllBelow r latest rs h.1 b.1)

find_page-latest_from :
    (latest rs : List RecoveredPage) (p : ℕ)
    → Ascending rs
    → AllBelow latest rs
    → find_page p (latest_from latest rs) ≡ or_else (last_record p rs) (find_page p latest)
unfolding latest_from
find_page-latest_from latest [] p up b = unfold last_record in refl
find_page-latest_from latest (r ∷ rs) p up b =
    let ih =
      find_page-latest_from (put_record r latest) rs p up.1
        (put_record-AllBelow r latest rs up.0 b.1) in
    rw (note_record_lem latest r b.0) (
      ih
      ∙ ap (or_else (last_record p rs)) (find_page-put_record r p latest)
      ∙ sym (last_record_cons p r rs (find_page p latest)))

AllBelow-nil : (rs : List RecoveredPage) → AllBelow [] rs
AllBelow-nil [] = tt
AllBelow-nil (r ∷ rs) = (tt, AllBelow-nil rs)

-- Of a log whose LSNs ascend, the reduction keeps the last record of each page, one for each page.
pub latest_from_lem :
    (rs : List RecoveredPage)
    → Ascending rs
    → Distinct (latest_from [] rs) × ((p : ℕ) → find_page p (latest_from [] rs) ≡ last_record p rs)
latest_from_lem rs up = (
  latest_from-Distinct [] rs tt,
  λ p. find_page-latest_from [] rs p up (AllBelow-nil rs) ∙ at_end p (last_record p rs),
)
  where
    at_end : (p : ℕ) (o : Option RecoveredPage) → or_else o (find_page p []) ≡ o
    at_end p none = unfold find_page in refl
    at_end p (some r) = refl

module _ {κ} (P : RecoveredPage → Type κ) where
  put_record-All :
      (r : RecoveredPage) (xs : List RecoveredPage) → P r → All P xs → All P (put_record r xs)
  unfolding put_record
  put_record-All r [] p h = (p, tt)
  put_record-All r (x ∷ xs) p h = elim (Bool-cases (x.page_id == r.page_id)) [
    | inl e ↦ rw e (p, h.1)
    | inr e ↦ rw e (h.0, put_record-All r xs p h.1)
  ]

  note_record-All :
      (latest : List RecoveredPage) (r : RecoveredPage)
      → P r
      → All P latest
      → All P (note_record latest r)
  unfolding note_record
  note_record-All latest r p h = elim (Option-cases (find_page r.page_id latest)) [
    | inl e ↦ rw (e, note_record) (put_record-All r latest p h)
    | inr (old, e) ↦ elim (Bool-cases (ltb old.lsn r.lsn)) [
      | inl newer ↦ rw (e, note_record, newer) (put_record-All r latest p h)
      | inr older ↦ rw (e, note_record, older) h
    ]
  ]

  pub latest_from-All :
      (latest rs : List RecoveredPage) → All P rs → All P latest → All P (latest_from latest rs)
  unfolding latest_from
  latest_from-All latest [] h l = l
  latest_from-All latest (r ∷ rs) h l =
      latest_from-All (note_record latest r) rs h.1 (note_record-All latest r h.0 l)
