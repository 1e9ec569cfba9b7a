-- ===== src/AnyConnect/Cidr/Normal.antt =====
-- `normalizePrefixes` and `largestPrefixes` of internal/anyconnect/network.go: the order of the result,
-- and the addresses that it keeps.
use native.Mathlib.Nat.{mul-div_cancel}
use snell_sh.Common.{
  ℕ, ◌-◌, ◌*◌, ◌/◌, ◌^◌, ◌≤◌, ◌≡◌, refl, sym, ap, ◌∙◌, true, false, ◌||◌, List, [], ◌∷◌, arith, leb,
  ◌==◌, any, length, take, All, if-cases, elim-cases, pow2_pos, length-take, All-map, any-take,
}
use snell_sh.Common.Sort.{
  sort_by, Ascending, Differ, any-sort_by, length-sort_by, All-sort_by, Ascending-sort_by,
}
use snell_sh.AnyConnect.Cidr.Prefix.{Prefix, contains, masked, covers}
use snell_sh.AnyConnect.Cidr.Blocks.{IsBlock}
use snell_sh.AnyConnect.Cidr.Routes.{same, distinct, by_address, by_size, normalize, largest}

contains-masked : (p : Prefix) (x : ℕ) → contains (masked p) x ≡ contains p x
unfolding contains masked
contains-masked p x =
    ap (λ (q : ℕ). x / 2 ^ (32 - p.bits) == q)
      (mul-div_cancel (p.addr / 2 ^ (32 - p.bits)) (pow2_pos (32 - p.bits)))

pub masked-IsBlock : {p : Prefix} → IsBlock p → IsBlock (masked p)
unfolding masked
masked-IsBlock {p} v =
    let own : p.addr / 2 ^ (32 - p.bits) ≡ v.index =
      ap (λ (a : ℕ). a / 2 ^ (32 - p.bits)) v.aligned
      ∙ mul-div_cancel v.index (pow2_pos (32 - p.bits)) in
    let here : p.addr / 2 ^ (32 - p.bits) * 2 ^ (32 - p.bits) ≡ p.addr =
      ap (λ (q : ℕ). q * 2 ^ (32 - p.bits)) own ∙ sym (v.aligned) in
    record {
      bits_le = v.bits_le;
      index = v.index;
      aligned = here ∙ v.aligned;
      fits = omega (arith, here, v.fits);
    }

-- What a prefix that is among others adds is covered already.
same-contains : (p q : Prefix) (x : ℕ) → same p q ≡ true → contains p x ≡ contains q x
unfolding contains
same-contains p q x h =
    let bits : p.bits ≡ q.bits = ground (arith, h) in
    let addr : p.addr ≡ q.addr = ground (arith, h) in rw (bits, addr) refl

covers-seen :
    (p : Prefix) (ps : List Prefix) (x : ℕ)
    → any (same p) ps ≡ true
    → contains p x ≡ true
    → covers ps x ≡ true
unfolding covers
covers-seen p [] x h c = absurd (ground arith)
covers-seen p (q ∷ ps) x h c = ground (arith, same-contains p q x, covers-seen p ps x)

covers-distinct :
    (seen ps : List Prefix) (x : ℕ)
    → (covers seen x || covers (distinct seen ps) x) ≡ (covers seen x || covers ps x)
unfolding covers distinct
covers-distinct seen [] x = refl
covers-distinct seen (p ∷ ps) x = ground (
  arith,
  contains-masked p x,
  covers-seen (masked p) seen x,
  covers-distinct seen ps x,
  covers-distinct (masked p ∷ seen) ps x,
)

pub covers-normalize : (ps : List Prefix) (x : ℕ) → covers (normalize ps) x ≡ covers ps x
unfolding covers normalize
covers-normalize ps x =
    any-sort_by by_address (λ p. contains p x) (distinct [] ps) ∙ covers-distinct [] ps x

-- The two ways of a round of `normalizePrefixes`.
distinct_round {κ} :
    (P : List Prefix → Type κ) (seen : List Prefix) (p : Prefix) (ps : List Prefix)
    → (any (same (masked p)) seen ≡ true → P (distinct seen ps))
    → (any (same (masked p)) seen ≡ false → P (masked p ∷ distinct (masked p ∷ seen) ps))
    → P (distinct seen (p ∷ ps))
unfolding distinct
distinct_round P seen p ps = elim-cases P (any (same (masked p)) seen)

All-distinct {κ} :
    (P : Prefix → Type κ) (seen ps : List Prefix)
    → All (λ p. P (masked p)) ps
    → All P (distinct seen ps)
unfolding distinct
All-distinct P seen [] h = tt
All-distinct P seen (p ∷ ps) h =
    distinct_round (All P) seen p ps (λ _. All-distinct P seen ps h.1)
      (λ _. (h.0, All-distinct P (masked p ∷ seen) ps h.1))

abbrev New : List Prefix → Prefix → Type 0
New seen p = any (same p) seen ≡ false

All-New-distinct : (seen ps : List Prefix) → All (New seen) (distinct seen ps)
unfolding distinct
All-New-distinct seen [] = tt
All-New-distinct seen (p ∷ ps) =
    distinct_round (All (New seen)) seen p ps (λ _. All-New-distinct seen ps)
      (λ e. (
        e,
        All-map (New (masked p ∷ seen)) (New seen) (λ q h. ground arith) _
            (All-New-distinct (masked p ∷ seen) ps),
      ))

Differ-distinct : (seen ps : List Prefix) → Differ same (distinct seen ps)
unfolding distinct
Differ-distinct seen [] = tt
Differ-distinct seen (p ∷ ps) =
    distinct_round (Differ same) seen p ps (λ _. Differ-distinct seen ps)
      (λ _. (
        All-map (New (masked p ∷ seen)) (λ q. same (masked p) q ≡ false) (λ q h. ground arith) _
            (All-New-distinct (masked p ∷ seen) ps),
        Differ-distinct (masked p ∷ seen) ps,
      ))

length-distinct : (seen ps : List Prefix) → length (distinct seen ps) ≤ length ps
unfolding distinct
length-distinct seen [] = omega arith
length-distinct seen (p ∷ ps) =
    grind (arith, length-distinct seen ps, length-distinct (masked p ∷ seen) ps)

pub length-normalize : (ps : List Prefix) → length (normalize ps) ≤ length ps
unfolding normalize
length-normalize ps =
    omega (arith, length-sort_by by_address (distinct [] ps), length-distinct [] ps)

pub normalize-IsBlock : (ps : List Prefix) → All IsBlock ps → All IsBlock (normalize ps)
unfolding normalize
normalize-IsBlock ps h =
    All-sort_by by_address IsBlock (distinct [] ps)
      (All-distinct IsBlock [] ps (All-map IsBlock _ (λ p v. masked-IsBlock v) ps h))

pub normalize-Ascending : (ps : List Prefix) → Ascending by_address (normalize ps)
unfolding normalize
normalize-Ascending ps =
    Ascending-sort_by by_address same (λ p q d l. ground arith) (distinct [] ps)
      (Differ-distinct [] ps)

pub length-largest : (limit : ℕ) (ps : List Prefix) → length (largest limit ps) ≤ limit
unfolding largest
length-largest limit ps =
    if-cases (λ (l : List Prefix). length l ≤ limit) (leb (length ps) limit)
      (λ h. ground (arith, h))
      λ _.
        let cut : List Prefix = take limit (sort_by by_size ps) in
        grind (arith, length-normalize cut, length-take limit (sort_by by_size ps))

covers-cut :
    (limit : ℕ) (ps : List Prefix) (x : ℕ)
    → covers (normalize (take limit (sort_by by_size ps))) x ≡ true
    → covers ps x ≡ true
unfolding covers
covers-cut limit ps x h =
    sym (any-sort_by by_size (λ p. contains p x) ps)
    ∙ any-take (λ p. contains p x) limit (sort_by by_size ps)
        (sym (covers-normalize (take limit (sort_by by_size ps)) x) ∙ h)

pub covers-largest :
    (limit : ℕ) (ps : List Prefix) (x : ℕ) → covers (largest limit ps) x ≡ true → covers ps x ≡ true
unfolding largest
covers-largest limit ps x =
    if-cases (λ (l : List Prefix). covers l x ≡ true → covers ps x ≡ true) (leb (length ps) limit)
      (λ _ h. h) (λ _. covers-cut limit ps x)

pub largest-Ascending :
    (limit : ℕ) (ps : List Prefix)
    → Ascending by_address ps
    → Ascending by_address (largest limit ps)
unfolding largest
largest-Ascending limit ps o =
    if-cases (Ascending by_address) (leb (length ps) limit) (λ _. o)
      (λ _. normalize-Ascending (take limit (sort_by by_size ps)))
