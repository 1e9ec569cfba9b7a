-- ===== src/Agent/Swept.antt =====
-- The files of the log directory while old ones are removed (internal/agent/manager.go).
use snell_sh.Common.{
  ◌≡◌, refl, sym, ap, ◌∙◌, inl, inr, ℕ, ◌+◌, true, false, none, some, [], ◌∷◌, Text, text_eq,
  text_eq_iff, text_eq_self, All, arith, Bool-cases, if-cases,
}
use snell_sh.Common.Dict.{Dict, lookup, erase, lookup-erase, IsKeyed}
use snell_sh.Common.Sort.{insert_by, sort_by, All-sort_by, All-insert_by, Differ}
use snell_sh.Agent.Sweep.{LogFile, regular_files, total_size, is_older}

-- The bytes of the regular files.
abbrev pub used_bytes : Dict LogFile → ℕ
used_bytes dir = total_size (regular_files dir)

-- A list of files that are in the directory, each once.
unfoldable pub InDir : Dict LogFile → Dict LogFile → Type 0
InDir dir files =
    All (λ (name, f). (lookup name dir ≡ some f) × (f.regular ≡ true)) files
    × Differ (λ (i, _) (j, _). text_eq i j) files

erase-missing : (k : Text) (m : Dict LogFile) → lookup k m ≡ none → erase k m ≡ m
unfolding lookup erase
erase-missing k [] h = refl
erase-missing k ((j, f) ∷ m) h = ground (arith, h, erase-missing k m)

pub used_bytes-erase :
    (name : Text) (f : LogFile) (dir : Dict LogFile)
    → IsKeyed dir
    → lookup name dir ≡ some f
    → f.regular ≡ true
    → used_bytes dir ≡ f.bytes + used_bytes (erase name dir)
unfolding IsKeyed lookup erase regular_files total_size
used_bytes-erase name f [] k there r = ground (arith, there)
used_bytes-erase name f ((j, g) ∷ dir) k there r = elim (Bool-cases (text_eq j name)) [
  | inl same ↦
      let row : g ≡ f = ground (arith, there, same) in
      let gone : erase name dir ≡ dir =
        erase-missing name dir (ap (λ x. lookup x dir) (sym ((text_eq_iff j name).0 same)) ∙ k.0) in
      rw (same, gone, row, r) refl
  | inr other ↦
      ground (arith, other, used_bytes-erase name f dir k.1 (ground (arith, there, other)) r)
]

-- The files of the directory after one of them goes.
pub InDir-erase :
    (name : Text) (f : LogFile) (files dir : Dict LogFile)
    → InDir dir ((name, f) ∷ files)
    → InDir (erase name dir) files
unfolding InDir
InDir-erase name f files dir (there, (apart, differ)) = (others files there.1 apart, differ)
  where
    others :
        (fs : Dict LogFile)
        → All (λ (n, g). (lookup n dir ≡ some g) × (g.regular ≡ true)) fs
        → All (λ (n, g). text_eq name n ≡ false) fs
        → All (λ (n, g). (lookup n (erase name dir) ≡ some g) × (g.regular ≡ true)) fs
    others [] h k = tt
    others ((n, g) ∷ fs) ((e, r), hs) (k, ks) =
        ((lookup-erase name n dir ∙ rw k e, r), others fs hs ks)

-- The regular files of a directory are in it, each once.
regular-lookup :
    (j : Text) (dir : Dict LogFile)
    → lookup j dir ≡ none
    → All (λ (n, g). text_eq j n ≡ false) (regular_files dir)
unfolding lookup regular_files
regular-lookup j [] h = tt
regular-lookup j ((n, g) ∷ dir) h =
    if-cases (All (λ (i, _). text_eq j i ≡ false)) g.regular
      (λ _. (
        ground (arith, h, text_eq_iff j n, text_eq_iff n j),
        regular-lookup j dir (ground (arith, h)),
      ))
      (λ _. regular-lookup j dir (ground (arith, h)))

later_Present :
    (j : Text) (g : LogFile) (dir fs : Dict LogFile)
    → All (λ (n, _). text_eq j n ≡ false) fs
    → All (λ (n, f). (lookup n dir ≡ some f) × (f.regular ≡ true)) fs
    → All (λ (n, f). (lookup n ((j, g) ∷ dir) ≡ some f) × (f.regular ≡ true)) fs
unfolding lookup
later_Present j g dir [] k h = tt
later_Present j g dir ((n, f) ∷ fs) (k, ks) ((e, r), hs) =
    ((rw k e, r), later_Present j g dir fs ks hs)

pub regular_files-InDir : (dir : Dict LogFile) → IsKeyed dir → InDir dir (regular_files dir)
unfolding InDir IsKeyed regular_files lookup
regular_files-InDir [] k = (tt, tt)
regular_files-InDir ((j, g) ∷ dir) k =
    let (there, differ) = regular_files-InDir dir k.1 in
    let apart = regular-lookup j dir k.0 in
    let later = later_Present j g dir (regular_files dir) apart there in
    if-cases (λ (fs : Dict LogFile). InDir ((j, g) ∷ dir) fs) g.regular
      (λ r. (((rw (text_eq_self j) refl, r), later), (apart, differ))) (λ _. (later, differ))

-- Sorting keeps the files and their bytes.
Differ-insert_by :
    (x : Text × LogFile) (ys : Dict LogFile)
    → All (λ y. text_eq x.0 y.0 ≡ false) ys
    → Differ (λ i j. text_eq i.0 j.0) ys
    → Differ (λ i j. text_eq i.0 j.0) (insert_by is_older x ys)
unfolding insert_by
Differ-insert_by x [] h d = (tt, tt)
Differ-insert_by x (y ∷ ys) (h, hs) (d, ds) =
    if-cases (Differ (λ i j. text_eq i.0 j.0)) (is_older y x)
      (λ _. (
        All-insert_by is_older (λ z. text_eq y.0 z.0 ≡ false) x ys
            (ground (arith, h, text_eq_iff x.0 y.0, text_eq_iff y.0 x.0)) d,
        Differ-insert_by x ys hs ds,
      ))
      (λ _. ((h, hs), (d, ds)))

pub Differ-sort_by :
    (xs : Dict LogFile)
    → Differ (λ i j. text_eq i.0 j.0) xs
    → Differ (λ i j. text_eq i.0 j.0) (sort_by is_older xs)
unfolding sort_by
Differ-sort_by [] d = tt
Differ-sort_by (x ∷ xs) (d, ds) =
    Differ-insert_by x (sort_by is_older xs)
      (All-sort_by is_older (λ y. text_eq x.0 y.0 ≡ false) xs d) (Differ-sort_by xs ds)

total_size-insert_by :
    (x : Text × LogFile) (ys : Dict LogFile)
    → total_size (insert_by is_older x ys) ≡ x.1.bytes + total_size ys
unfolding insert_by total_size
total_size-insert_by x [] = refl
total_size-insert_by x (y ∷ ys) =
    if-cases (λ (l : Dict LogFile). total_size l ≡ x.1.bytes + (y.1.bytes + total_size ys))
      (is_older y x) (λ _. omega (arith, total_size-insert_by x ys)) (λ _. refl)

pub total_size-sort_by : (xs : Dict LogFile) → total_size (sort_by is_older xs) ≡ total_size xs
unfolding sort_by total_size
total_size-sort_by [] = refl
total_size-sort_by (x ∷ xs) =
    omega (arith, total_size-insert_by x (sort_by is_older xs), total_size-sort_by xs)
