-- ===== src/Mempool/Orders.antt =====
-- The lists of the senders in mempool/mempool.go: what `insertSorted` makes of one.
use rpcnode.Prelude.{
  ℕ, ◌≤◌, ◌<◌, ◌≡◌, refl, Bool, true, false, Option, none, some, List, [], ◌∷◌, ltb, if◌then◌else◌,
  get_elem?, arith,
}
use mathlib.Core.List.{Perm}
use mathlib.Core.List.Perm
use rpcnode.Mempool.Types.{Entry}
use rpcnode.Mempool.{insert_sorted, before_entry}

abbrev nonce_of : Option Entry → ℕ
nonce_of none = 0
nonce_of (some e) = e.tx.nonce

-- the nonces of a list of entries do not go down, from `low` on
abbrev pub Ascending : List Entry → ℕ → List ℕ → Type 0
Ascending entries low [] = Unit
Ascending entries low (id ∷ ids) =
    (low ≤ nonce_of (get_elem? entries id))
    × Ascending entries (nonce_of (get_elem? entries id)) ids

before_entry_lem : (n : ℕ) (o : Option Entry) → before_entry n o ≡ ltb n (nonce_of o)
before_entry_lem n none = ground arith
before_entry_lem n (some e) = refl

-- `insertSorted` of an entry, with its nonce, into a list whose nonces do not go down: the list has that
-- entry and those it had, and its nonces do not go down, from any bound that they and the new one respect.
pub insert_sorted_lem :
    (entries : List Entry) (e low n : ℕ) (ids : List ℕ)
    → nonce_of (get_elem? entries e) ≡ n
    → low ≤ n
    → Ascending entries low ids
    → Ascending entries low (insert_sorted entries n e ids)
      × Perm (insert_sorted entries n e ids) (e ∷ ids)
unfolding insert_sorted
insert_sorted_lem entries e low n [] h l a = ((omega (arith, h, l), tt), Perm.refl (e ∷ []))
insert_sorted_lem entries e low n (se ∷ ids) h l (b, a) =
    go (before_entry n (get_elem? entries se)) refl
      (insert_sorted_lem entries e (nonce_of (get_elem? entries se)) n ids h)
  where
    se_nonce : ℕ
    se_nonce = nonce_of (get_elem? entries se)

    rest : List ℕ
    rest = insert_sorted entries n e ids

    go :
        (c : Bool)
        → before_entry n (get_elem? entries se) ≡ c
        → (se_nonce ≤ n
            → Ascending entries se_nonce ids
            → Ascending entries se_nonce rest × Perm rest (e ∷ ids))
        → Ascending entries low (if c then e ∷ se ∷ ids else se ∷ rest)
          × Perm (if c then e ∷ se ∷ ids else se ∷ rest) (e ∷ se ∷ ids)
    go true f ih =
        let under : n < se_nonce = ground (arith, before_entry_lem n (get_elem? entries se)) in
        ((omega (arith, h, l), (omega (arith, h, under), a)), Perm.refl (e ∷ se ∷ ids))
    go false f ih =
        let above : se_nonce ≤ n = ground (arith, before_entry_lem n (get_elem? entries se)) in
        let (up, perm) = ih above a in
        ((b, up), Perm.trans (Perm.cons se perm) (Perm.swap e se ids))
