-- ===== src/Nodes/Names.antt =====
-- No two users of one AnyConnect server share a name (internal/nodes/anyconnect.go).
use snell_sh.Common.{
  ◌≡◌, refl, ◌∙◌, ◌⊎◌, inl, inr, Bool, false, not, ◌&&◌, Option, none, some, [], ◌∷◌, Text, text_eq,
  text_eq_iff, arith, Bool-cases,
}
use snell_sh.Common.Dict.{
  Dict, lookup, insert, erase, prune, IsKeyed, unless_old, lookup-insert, lookup-erase,
  lookup-prune, insert-IsKeyed, erase-IsKeyed, prune-IsKeyed,
}
use snell_sh.Nodes.Model.{UserRow}
use snell_sh.Nodes.Users.{name_taken}

abbrev pub same_name : Option UserRow → Option UserRow → Bool
same_name none v = false
same_name (some u) none = false
same_name (some u) (some v) = text_eq u.node_id v.node_id && text_eq u.username v.username

-- Every id stands once, and no two users have one node and one name.
pub record IsDistinct (users : Dict UserRow) : Type 0 where
  pub keyed : IsKeyed users
  pub names :
      (i j : Text) → (not (text_eq i j) && same_name (lookup i users) (lookup j users)) ≡ false

name_taken-same_name :
    (id : Text) (u : UserRow) (users : Dict UserRow) (j : Text)
    → name_taken id u users ≡ false
    → text_eq j id ≡ false
    → same_name (some u) (lookup j users) ≡ false
unfolding name_taken lookup
name_taken-same_name id u [] j h ne = refl
name_taken-same_name id u ((i, v) ∷ users) j h ne =
    ground (arith, text_eq_iff i j, name_taken-same_name id u users j)

same_name_sym : (o p : Option UserRow) → same_name o p ≡ same_name p o
same_name_sym none none = refl
same_name_sym none (some v) = refl
same_name_sym (some u) none = refl
same_name_sym (some u) (some v) = ground (
  arith,
  text_eq_iff u.node_id v.node_id,
  text_eq_iff v.node_id u.node_id,
  text_eq_iff u.username v.username,
  text_eq_iff v.username u.username,
)

pub insert-IsDistinct :
    (id : Text) (u : UserRow) (users : Dict UserRow)
    → name_taken id u users ≡ false
    → IsDistinct users
    → IsDistinct (insert id u users)
insert-IsDistinct id u users free d = record {
  keyed = insert-IsKeyed id u users d.keyed;
  names = λ i j.
      rw (lookup-insert id i u users, lookup-insert id j u users)
        (elim (Bool-cases (text_eq id i)) [
          | inl ei ↦ elim (Bool-cases (text_eq id j)) [
            | inl ej ↦ ground (arith, ei, ej, text_eq_iff id i, text_eq_iff id j, text_eq_iff i j)
            | inr ej ↦
                rw (ei, ej)
                  (ground (
                    arith,
                    ej,
                    text_eq_iff id j,
                    text_eq_iff j id,
                    name_taken-same_name id u users j free,
                  ))
          ]
          | inr ei ↦ elim (Bool-cases (text_eq id j)) [
            | inl ej ↦
                rw (ei, ej, same_name_sym (lookup i users) (some u))
                  (ground (
                    arith,
                    ei,
                    text_eq_iff id i,
                    text_eq_iff i id,
                    name_taken-same_name id u users i free,
                  ))
            | inr ej ↦ rw (ei, ej) (d.names i j)
          ]
        ]);
}

-- Rows that went make no new pair.
fewer :
    (i j : Text) (o o' p p' : Option UserRow)
    → (o' ≡ none) ⊎ (o' ≡ o)
    → (p' ≡ none) ⊎ (p' ≡ p)
    → (not (text_eq i j) && same_name o p) ≡ false
    → (not (text_eq i j) && same_name o' p') ≡ false
fewer i j o o' p p' (inl e) q h = rw e (ground arith)
fewer i j o o' p p' (inr e) (inl f) h = rw (f, same_name_sym o' none) (ground arith)
fewer i j o o' p p' (inr e) (inr f) h = rw (e, f) h

erased :
    (id i : Text) (users : Dict UserRow)
    → (lookup i (erase id users) ≡ none) ⊎ (lookup i (erase id users) ≡ lookup i users)
erased id i users = elim (Bool-cases (text_eq id i)) [
  | inl e ↦ inl (lookup-erase id i users ∙ rw e refl)
  | inr e ↦ inr (lookup-erase id i users ∙ rw e refl)
]

pub erase-IsDistinct :
    (id : Text) (users : Dict UserRow) → IsDistinct users → IsDistinct (erase id users)
erase-IsDistinct id users d = record {
  keyed = erase-IsKeyed id users d.keyed;
  names = λ i j. fewer i j _ _ _ _ (erased id i users) (erased id j users) (d.names i j);
}

unless :
    (old : UserRow → Bool) (o : Option UserRow) → (unless_old old o ≡ none) ⊎ (unless_old old o ≡ o)
unless old none = inl refl
unless old (some u) = elim (Bool-cases (old u)) [
  | inl e ↦ inl (rw e refl)
  | inr e ↦ inr (rw e refl)
]

pruned :
    (old : UserRow → Bool) (i : Text) (users : Dict UserRow)
    → IsKeyed users
    → (lookup i (prune old users) ≡ none) ⊎ (lookup i (prune old users) ≡ lookup i users)
pruned old i users k = elim (unless old (lookup i users)) [
  | inl e ↦ inl (lookup-prune old i users k ∙ e)
  | inr e ↦ inr (lookup-prune old i users k ∙ e)
]

pub prune-IsDistinct :
    (old : UserRow → Bool) (users : Dict UserRow) → IsDistinct users → IsDistinct (prune old users)
prune-IsDistinct old users d = record {
  keyed = prune-IsKeyed old users d.keyed;
  names = λ i j.
      fewer i j _ _ _ _ (pruned old i users d.keyed) (pruned old j users d.keyed) (d.names i j);
}
