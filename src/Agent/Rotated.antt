-- ===== src/Agent/Rotated.antt =====
-- What a rotation does to the three files of a log (internal/agent/manager.go).
use snell_sh.Common.{
  ◌≡◌, refl, ◌∙◌, Bool, true, false, Option, none, some, [], ◌∷◌, ◌++◌, Text, text_eq, text_eq_self,
  codes, arith, if◌then◌else◌,
}
use snell_sh.Common.Dict.{Dict, lookup, erase, lookup-insert, lookup-erase}
use snell_sh.Agent.Logs.{first_archive, second_archive, moved_file, rename, rotate}

pub longer_lem : (s : Text) (c : _) (t : Text) → text_eq s (s ++ c ∷ t) ≡ false
unfolding text_eq
longer_lem [] c t = refl
longer_lem (d ∷ s) c t = ground (arith, longer_lem s c t)

shorter_lem : (s : Text) (c : _) (t : Text) → text_eq (s ++ c ∷ t) s ≡ false
unfolding text_eq
shorter_lem [] c t = refl
shorter_lem (d ∷ s) c t = ground (arith, shorter_lem s c t)

text_eq-append : (s t u : Text) → text_eq (s ++ t) (s ++ u) ≡ text_eq t u
unfolding text_eq
text_eq-append [] t u = refl
text_eq-append (d ∷ s) t u = ground (arith, text_eq-append s t u)

abbrev renamed : Option Text → Bool → Bool → Option Text → Option Text
renamed none to from o = o
renamed (some s) to from o = if to then some s else if from then none else o

lookup-moved_file :
    (from to x : Text) (files : Dict Text) (o : Option Text)
    → lookup x (moved_file from files o to)
      ≡ renamed o (text_eq to x) (text_eq from x) (lookup x files)
lookup-moved_file from to x files none = refl
lookup-moved_file from to x files (some s) =
    lookup-insert to x s (erase from files) ∙ ground (arith, lookup-erase from x files)

lookup-rename :
    (from to x : Text) (files : Dict Text)
    → lookup x (rename from to files)
      ≡ renamed (lookup from files) (text_eq to x) (text_eq from x) (lookup x files)
unfolding rename
lookup-rename from to x files = lookup-moved_file from to x files (lookup from files)

-- The three files after a rotation: the current one becomes the first archive, and the first archive,
-- if there is one, becomes the second.
abbrev pub or_else : Option Text → Option Text → Option Text
or_else none o = o
or_else (some s) o = some s

by_state :
    (o p : Option Text) (to from : Bool) → to ≡ false → from ≡ false → renamed o to from p ≡ p
by_state none p to from h k = refl
by_state (some s) p to from h k = ground (arith, h, k)

old : (o p : Option Text) → renamed o true false p ≡ or_else o p
old none p = refl
old (some s) p = refl

pub rotate_lem :
    (path s : Text) (files : Dict Text)
    → lookup path files ≡ some s
    → (lookup path (rotate path files) ≡ none)
      × (lookup (first_archive path) (rotate path files) ≡ some s)
      × (lookup (second_archive path) (rotate path files)
          ≡ or_else (lookup (first_archive path) files) (lookup (second_archive path) files))
unfolding rotate text_eq
rotate_lem path s files there =
    let p1 = first_archive path in
    let p2 = second_archive path in
    let inner = rename p1 p2 files in
    let apart1 : text_eq p1 path ≡ false = shorter_lem path b'.' (b'1' ∷ []) in
    let apart2 : text_eq p2 path ≡ false = shorter_lem path b'.' (b'2' ∷ []) in
    let apart3 : text_eq path p1 ≡ false = longer_lem path b'.' (b'1' ∷ []) in
    let apart4 : text_eq path p2 ≡ false = longer_lem path b'.' (b'2' ∷ []) in
    let apart5 : text_eq p1 p2 ≡ false = text_eq-append path (codes ".1") (codes ".2") in
    let apart6 : text_eq p2 p1 ≡ false = text_eq-append path (codes ".2") (codes ".1") in
    let current : lookup path inner ≡ some s =
      lookup-rename p1 p2 path files ∙ by_state (lookup p1 files) _ _ _ apart2 apart1 ∙ there in
    let whole = λ (x : Text). lookup-rename path p1 x inner in
    (
      ground (arith, whole path, current, apart1, text_eq_self path),
      ground (arith, whole p1, current, text_eq_self p1),
      ground (
        arith,
        whole p2,
        current,
        apart5,
        apart4,
        apart6,
        lookup-rename p1 p2 p2 files,
        text_eq_self p2,
        old (lookup p1 files) (lookup p2 files),
      ),
    )
