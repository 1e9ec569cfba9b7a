-- ===== src/ConfigGen/Lines.antt =====
-- The lines that a Snell server reads of its configuration (internal/configgen/generate.go), and which of
-- them a value of the node can add (internal/nodes/validate.go).
use snell_sh.Common.{
  ℕ, zero, suc, ◌+◌, ◌/◌, ◌%◌, ltb, ◌≡◌, refl, sym, ap, ◌∙◌, Bool, true, false, ◌==◌, Option, none,
  some, List, [], ◌∷◌, ◌++◌, any, All, any-append, codes, Text, text_eq, arith, if-cases,
  if◌then◌else◌, Bool-cases, inl, inr,
}
use mathlib.Core.List.{append_assoc, append-nil}
use snell_sh.Common.Int.{ℤ, pos, negsuc}
use snell_sh.Common.Decimal.{digits, itoa}
use snell_sh.Common.Breaks.{line_break, split_lines, complete, split_lines-append, complete-append}
use snell_sh.Nodes.Model.{Request, Readers, snell, Node}
use snell_sh.Nodes.Validate.{text_or, normalize_request, normalize_as, check_snell}
use snell_sh.Nodes.Admit.{validate, check_request, check_by_kind}
use snell_sh.ConfigGen.{
  Document, ini, object, sprint, join_host_port, generate_as, join_lines, snell_lines, generate,
  host_of, listen_address, truth, dns_line,
}

-- No line break in a text.
abbrev pub IsOneLine : Text → Type 0
IsOneLine s = any (λ c. c == line_break) s ≡ false

split_lines-one : (s : Text) → IsOneLine s → split_lines (s ++ line_break ∷ []) ≡ s ∷ []
unfolding split_lines
split_lines-one [] h = refl
split_lines-one (c ∷ s) h = ground (arith, h, split_lines-one s)

-- The pieces of lines, each with its line break.
abbrev pieces : List Text → List Text
pieces [] = []
pieces (l ∷ ls) = split_lines (l ++ line_break ∷ []) ++ pieces ls

split_lines-join_lines :
    (l : Text) (ls : List Text) → split_lines (join_lines (l ∷ ls)) ≡ pieces (l ∷ ls)
unfolding join_lines complete
split_lines-join_lines l [] = sym (append-nil (split_lines (l ++ line_break ∷ [])))
split_lines-join_lines l (m ∷ ls) =
    let rest = join_lines (m ∷ ls) in
    ap split_lines (sym (append_assoc l (line_break ∷ []) rest))
    ∙ split_lines-append (l ++ line_break ∷ []) rest (complete-append l line_break [] refl)
    ∙ ap (λ ps. split_lines (l ++ line_break ∷ []) ++ ps) (split_lines-join_lines m ls)

pieces_one : (ls : List Text) → All IsOneLine ls → pieces ls ≡ ls
pieces_one [] h = refl
pieces_one (l ∷ ls) h =
    ap (λ ps. ps ++ pieces ls) (split_lines-one l h.0) ∙ ap (λ r. l ∷ r) (pieces_one ls h.1)

-- The lines of a document.
abbrev pub lines_in : Option Document → List Text
lines_in none = []
lines_in (some (ini t)) = split_lines t
lines_in (some (object o)) = []

prefix_one : (s t : Text) → IsOneLine s → IsOneLine t → IsOneLine (s ++ t)
prefix_one s t h k = ground (arith, any-append (λ c. c == line_break) s t, h, k)

truth_one : (b : Bool) → IsOneLine (codes "ipv6 = " ++ truth b)
truth_one true = refl
truth_one false = refl

-- A DNS value of two lines.
split_lines-two :
    (s t : Text)
    → IsOneLine s
    → IsOneLine t
    → split_lines ((s ++ line_break ∷ t) ++ line_break ∷ []) ≡ s ∷ t ∷ []
unfolding complete
split_lines-two s t h k =
    ap split_lines (
      append_assoc s (line_break ∷ t) (line_break ∷ [])
      ∙ sym (append_assoc s (line_break ∷ []) (t ++ line_break ∷ [])))
    ∙ split_lines-append (s ++ line_break ∷ []) (t ++ line_break ∷ [])
        (complete-append s line_break [] refl)
    ∙ ap (λ ps. ps ++ split_lines (t ++ line_break ∷ [])) (split_lines-one s h)
    ∙ ap (λ ps. s ∷ ps) (split_lines-one t k)

digits_one : (fuel n : ℕ) (acc : Text) → IsOneLine acc → IsOneLine (digits fuel n acc)
unfolding digits
digits_one zero n acc h = h
digits_one (suc fuel) n acc h =
    if-cases IsOneLine (ltb n 10) (λ _. ground (arith, h))
      (λ _. digits_one fuel (n / 10) ((b'0' + n % 10) ∷ acc) (ground (arith, h)))

sprint_one : (z : ℤ) → IsOneLine (sprint z)
unfolding sprint itoa
sprint_one (pos n) = digits_one (suc n) n [] refl
sprint_one (negsuc n) = ground (arith, digits_one (suc (n + 1)) (n + 1) [] refl)

address_one : (host : Text) (port : ℤ) → IsOneLine host → IsOneLine (listen_address host port)
unfolding join_host_port
address_one host port h =
    let p = sprint_one port in
    if-cases IsOneLine (any (λ c. c == b':') host)
      (λ _. prefix_one host (codes "]:" ++ sprint port) h p)
      (λ _. prefix_one host (b':' ∷ sprint port) h p)

-- The first three lines.
abbrev first_lines : Node → Text → List Text
first_lines n secret =
    codes "[snell-server]"
    ∷ (codes "listen = " ++ listen_address (host_of n) n.row.listen_port)
    ∷ (codes "psk = " ++ secret)
    ∷ []

abbrev ipv6_line : Node → Text
ipv6_line n = codes "ipv6 = " ++ truth n.config.ipv6

first_one :
    (n : Node) (secret : Text)
    → IsOneLine (host_of n)
    → IsOneLine secret
    → All IsOneLine (first_lines n secret)
first_one n secret h k = (refl, (address_one (host_of n) n.row.listen_port h, (k, tt)))

dns_one :
    (dns : Text) (rest : List Text)
    → IsOneLine dns
    → All IsOneLine rest
    → All IsOneLine (dns_line dns rest)
dns_one dns rest h k = if-cases (All IsOneLine) (text_eq dns []) (λ _. k) (λ _. (h, k))

-- Without line breaks in the values, the text has the lines that it was joined from.
joined_lines :
    (n : Node) (secret : Text) (backend : Option Node)
    → n.row.kind ≡ snell
    → IsOneLine (host_of n)
    → IsOneLine secret
    → IsOneLine n.config.dns
    → lines_in (generate n secret backend) ≡ snell_lines n secret
unfolding generate snell_lines
joined_lines n secret backend is_snell h k dns =
    let (a, (b, (c, _))) = first_one n secret h k in
    let last : All IsOneLine (ipv6_line n ∷ []) = (truth_one n.config.ipv6, tt) in
    ap (λ kind. lines_in (generate_as kind n secret backend)) is_snell
    ∙ split_lines-join_lines (codes "[snell-server]") _
    ∙ pieces_one (snell_lines n secret)
        (a, (b, (c, dns_one n.config.dns (ipv6_line n ∷ []) dns last)))

-- The host of a node, and how it stands before a port.
abbrev pub shown_host : Text → Text
shown_host host = if text_eq host [] then codes "0.0.0.0" else host

abbrev pub bracketed : Text → Text
bracketed host = if any (λ c. c == b':') host then codes "[" ++ (host ++ codes "]") else host

shown_lem : (s : Text) → text_or s (codes "0.0.0.0") ≡ shown_host s
unfolding text_or text_eq
shown_lem [] = refl
shown_lem (c ∷ s) = refl

address_lem : (host port : Text) → join_host_port host port ≡ (bracketed host ++ codes ":") ++ port
unfolding join_host_port
address_lem host port = elim (Bool-cases (any (λ c. c == b':') host)) [
  | inl e ↦ rw e (
      ap (λ t. b'[' ∷ t)
        (sym (
          append_assoc (host ++ codes "]") (codes ":") port
          ∙ append_assoc host (codes "]") (codes ":" ++ port))))
  | inr e ↦ rw e (sym (append_assoc host (codes ":") port))
]

dns_lem :
    (dns : Text) (b : Bool)
    → dns_line dns ((codes "ipv6 = " ++ truth b) ∷ [])
      ≡ (if text_eq dns [] then [] else (codes "dns = " ++ dns) ∷ [])
        ++ (if b then codes "ipv6 = true" else codes "ipv6 = false") ∷ []
dns_lem dns true = elim (Bool-cases (text_eq dns [])) [ inl e ↦ rw e refl | inr e ↦ rw e refl ]
dns_lem dns false = elim (Bool-cases (text_eq dns [])) [ inl e ↦ rw e refl | inr e ↦ rw e refl ]

-- If the host, the secret and the DNS value of a Snell node have no line break, and its port is no
-- negative number, then the text that is generated for it has exactly these lines: `[snell-server]`; the
-- address after `listen = `, which is the host, or 0.0.0.0 for an empty one, in brackets if it has a
-- colon, then a colon and the port in decimal; the secret after `psk = `; the DNS value after
-- `dns = ` unless it is empty; and `ipv6 = true` or `ipv6 = false` after the switch.
pub generate-lines :
    (n : Node) (secret : Text) (backend : Option Node) (port : ℕ)
    → n.row.kind ≡ snell
    → n.row.listen_port ≡ pos port
    → IsOneLine (shown_host n.row.listen_host)
    → IsOneLine secret
    → IsOneLine n.config.dns
    → lines_in (generate n secret backend)
      ≡ codes "[snell-server]"
        ∷ (codes "listen = "
            ++ (bracketed (shown_host n.row.listen_host) ++ codes ":" ++ itoa port))
        ∷ (codes "psk = " ++ secret)
        ∷ ((if text_eq n.config.dns [] then [] else (codes "dns = " ++ n.config.dns) ∷ [])
            ++ (if n.config.ipv6 then codes "ipv6 = true" else codes "ipv6 = false") ∷ [])
unfolding snell_lines sprint
generate-lines n secret backend port is_snell is_port h k dns =
    let host = shown_host n.row.listen_host in
    let address : join_host_port (host_of n) (sprint n.row.listen_port)
        ≡ bracketed host ++ codes ":" ++ itoa port =
      rw (shown_lem n.row.listen_host, is_port) (address_lem host (itoa port)) in
    let listen = codes "listen = " ++ (bracketed host ++ codes ":" ++ itoa port) in
    let psk = codes "psk = " ++ secret in
    joined_lines n secret backend is_snell (rw (shown_lem n.row.listen_host) h) k dns
    ∙ ap
        (λ (a : Text).
          codes "[snell-server]"
          ∷ (codes "listen = " ++ a)
          ∷ psk
          ∷ dns_line n.config.dns (ipv6_line n ∷ []))
        address
    ∙ ap (λ (ls : List Text). codes "[snell-server]" ∷ listen ∷ psk ∷ ls)
        (dns_lem n.config.dns n.config.ipv6)

longer_lem : (s : Text) (c : ℕ) (t : Text) → text_eq (s ++ c ∷ t) [] ≡ false
unfolding text_eq
longer_lem [] c t = refl
longer_lem (d ∷ s) c t = refl

dns_two :
    (s t v : Text)
    → IsOneLine s
    → IsOneLine t
    → IsOneLine v
    → pieces (dns_line (s ++ line_break ∷ t) (v ∷ [])) ≡ (codes "dns = " ++ s) ∷ t ∷ v ∷ []
dns_two s t v h k l = rw (longer_lem s line_break t) (
    ap (λ ps. ps ++ pieces (v ∷ [])) (split_lines-two (codes "dns = " ++ s) t h k)
    ∙ ap (λ ps. (codes "dns = " ++ s) ∷ t ∷ ps) (pieces_one (v ∷ []) (l, tt)))

pieces-append : (ls ms : List Text) → pieces (ls ++ ms) ≡ pieces ls ++ pieces ms
pieces-append [] ms = refl
pieces-append (l ∷ ls) ms =
    ap (λ r. split_lines (l ++ line_break ∷ []) ++ r) (pieces-append ls ms)
    ∙ sym (append_assoc (split_lines (l ++ line_break ∷ [])) (pieces ls) (pieces ms))

unread_lem :
    (lib : Readers) (r : Request) (secret dns : Text)
    → r.kind ≡ snell
    → validate lib (record r { secret = secret; config = record (r.config) { dns = dns } })
      ≡ validate lib r
unfolding validate check_request normalize_request normalize_as check_by_kind check_snell
unread_lem lib r secret dns asks = rw asks refl

-- `Validate` reads neither the secret nor the DNS value of a Snell node, and a line break in its DNS value
-- makes a line of its own of what comes after it, if the host, the secret and both parts have none.
pub generate-breaks :
    (lib : Readers) (r : Request) (n : Node) (secret : Text) (backend : Option Node) (s t : Text)
    → r.kind ≡ snell
    → n.row.kind ≡ snell
    → n.config.dns ≡ s ++ line_break ∷ t
    → IsOneLine (host_of n)
    → IsOneLine secret
    → IsOneLine s
    → IsOneLine t
    → (validate lib
          (record r { secret = secret; config = record (r.config) { dns = n.config.dns } })
        ≡ validate lib r)
      × (lines_in (generate n secret backend)
          ≡ first_lines n secret ++ (codes "dns = " ++ s) ∷ t ∷ ipv6_line n ∷ [])
unfolding generate snell_lines
generate-breaks lib r n secret backend s t asks is_snell dns h k one two = (
  unread_lem lib r secret n.config.dns asks,
  ap (λ kind. lines_in (generate_as kind n secret backend)) is_snell
      ∙ split_lines-join_lines (codes "[snell-server]") _
      ∙ pieces-append (first_lines n secret) (dns_line n.config.dns (ipv6_line n ∷ []))
      ∙ ap (λ ps. ps ++ pieces (dns_line n.config.dns (ipv6_line n ∷ [])))
          (pieces_one (first_lines n secret) (first_one n secret h k))
      ∙ ap (λ d. first_lines n secret ++ pieces (dns_line d (ipv6_line n ∷ []))) dns
      ∙ ap (λ ps. first_lines n secret ++ ps)
          (dns_two s t (ipv6_line n) one two (truth_one n.config.ipv6)),
)
