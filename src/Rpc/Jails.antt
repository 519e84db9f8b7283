-- ===== src/Rpc/Jails.antt =====
-- The list of jails that rpc/metrics.go reads out of what the fail2ban client prints.
use rpcnode.Prelude.{
  ℕ, GoString, bytes, str_eq, has_prefix, ◌≡◌, ◌≢◌, refl, sym, ap, ◌∙◌, arith, true, false, List,
  [], ◌∷◌, ◌++◌, ◌==◌,
}
use mathlib.Core.List.{reverse, reverse_aux, append_assoc, append-nil, reverse-reverse}
use rpcnode.Rpc.Rest.{join}
use rpcnode.Rpc.Metrics.{
  split_onto, split, is_blank, trim_left, trim_space, named, after_colon, contains, jails,
}

-- a byte that is no blank and no comma
abbrev IsPlain : ℕ → Type 0
IsPlain b = (is_blank b ≡ false) × ((b == b',') ≡ false)

-- a name is a text of plain bytes
abbrev ArePlain : GoString → Type 0
ArePlain [] = Unit
ArePlain (b ∷ s) = IsPlain b × ArePlain s

abbrev pub IsName : GoString → Type 0
IsName s = (s ≢ []) × ArePlain s

abbrev pub AreNames : List GoString → Type 0
AreNames [] = Unit
AreNames (n ∷ ns) = IsName n × AreNames ns

split_onto-last : (cur s : GoString) → ArePlain s → split_onto b',' cur s ≡ (cur ++ s) ∷ []
split_onto-last cur [] h = ap (λ l. l ∷ []) (sym (append-nil cur))
split_onto-last cur (b ∷ s) h =
    rw (h.0.1)
      (split_onto-last (cur ++ b ∷ []) s h.1 ∙ ap (λ l. l ∷ []) (append_assoc cur (b ∷ []) s))

split_onto-comma :
    (cur s rest : GoString)
    → ArePlain s
    → split_onto b',' cur (s ++ b',' ∷ rest) ≡ (cur ++ s) ∷ split_onto b',' [] rest
split_onto-comma cur [] rest h = ap (λ l. l ∷ split_onto b',' [] rest) (sym (append-nil cur))
split_onto-comma cur (b ∷ s) rest h = rw (h.0.1) (
    split_onto-comma (cur ++ b ∷ []) s rest h.1
    ∙ ap (λ l. l ∷ split_onto b',' [] rest) (append_assoc cur (b ∷ []) s))

ArePlain-reverse_aux : (s acc : GoString) → ArePlain s → ArePlain acc → ArePlain (reverse_aux s acc)
ArePlain-reverse_aux [] acc h g = g
ArePlain-reverse_aux (b ∷ s) acc (p, h) g = ArePlain-reverse_aux s (b ∷ acc) h (p, g)

trim_left-plain : (s : GoString) → ArePlain s → trim_left s ≡ s
unfolding trim_left
trim_left-plain [] h = refl
trim_left-plain (b ∷ s) h = rw (h.0.0) refl

trim_left-blank : (b : ℕ) (s : GoString) → is_blank b ≡ true → trim_left (b ∷ s) ≡ trim_left s
unfolding trim_left
trim_left-blank b s blank = rw blank refl

trim_space-name : (b : ℕ) (s : GoString) → is_blank b ≡ true → ArePlain s → trim_space (b ∷ s) ≡ s
unfolding trim_space
trim_space-name b s blank h =
    ap (λ l. reverse (trim_left (reverse l))) (trim_left-blank b s blank ∙ trim_left-plain s h)
    ∙ ap reverse (trim_left-plain (reverse s) (ArePlain-reverse_aux s [] h tt))
    ∙ reverse-reverse s

name_is_kept : (n : GoString) → n ≢ [] → str_eq n [] ≡ false
unfolding str_eq
name_is_kept [] h = absurd (h refl)
name_is_kept (b ∷ n) h = refl

named-name :
    (b : ℕ) (n : GoString) (rest : List GoString)
    → is_blank b ≡ true
    → IsName n
    → named ((b ∷ n) ∷ rest) ≡ n ∷ named rest
unfolding named
named-name b n rest blank (full, plain) =
    rw (trim_space-name b n blank plain, name_is_kept n full) refl

blank_is_no_comma : (b : ℕ) → is_blank b ≡ true → (b == b',') ≡ false
blank_is_no_comma b h = ground arith

named-join :
    (b : ℕ) (n : GoString) (ns : List GoString)
    → is_blank b ≡ true
    → AreNames (n ∷ ns)
    → named (split_onto b',' [] (b ∷ join (bytes ", ") (n ∷ ns))) ≡ n ∷ ns
unfolding named
named-join b n [] blank h =
    rw (blank_is_no_comma b blank)
      (ap named (split_onto-last (b ∷ []) n h.0.1) ∙ named-name b n [] blank h.0)
named-join b n (m ∷ ns) blank h = rw (blank_is_no_comma b blank) (
    ap named (split_onto-comma (b ∷ []) n (b' ' ∷ join (bytes ", ") (m ∷ ns)) h.0.1)
    ∙ named-name b n _ blank h.0
    ∙ ap (λ l. n ∷ l) (named-join b' ' m ns refl h.1))

-- the line of the client's status that names the jails
abbrev pub jail_line : List GoString → GoString
jail_line ns = bytes "`- Jail list:" ++ 9 ∷ join (bytes ", ") ns

-- Out of the line in which fail2ban lists its jails, separated by a comma and a blank, the jails are
-- read that are listed, where their names have neither blanks nor commas.
pub jails-jail_line :
    (n : GoString) (ns : List GoString)
    → AreNames (n ∷ ns)
    → jails (jail_line (n ∷ ns) ∷ []) ≡ n ∷ ns
unfolding jails contains has_prefix split after_colon
jails-jail_line n ns h = append-nil _ ∙ named-join 9 n ns refl h
