-- ===== src/Token/Step.antt =====
-- What any call may do to the store of the token program, whoever makes it, as a step relation on
-- stores: an abstraction of Token/Spec. `Allowed` restricts the pairs of accounts between which
-- amounts move. Invariants are proved on the six constructors.
use rpcnode.Prelude.{ℕ, ◌≡◌, GoString, false, [], ◌≢◌, ◌⊎◌, ok, if◌then◌else◌}
use rpcnode.Prelude.Int.{ℤ, pos, ◌+ℤ◌, ◌-ℤ◌, ◌≤ℤ◌, ◌<ℤ◌, ltb_ℤ}
use rpcnode.Json.{Json}
use rpcnode.Storage.{MemStorage, has}
use rpcnode.Token.Types.{TokenInfo, TokenAccount}
use rpcnode.Token.Store.{
  token_key, get_token, save_token, get_account, get_or_create_account, save_account, empty_account,
}
use rpcnode.Token.{derive_token_id}

-- the same account with another balance, delegate, allowance or frozen flag
pub record IsSameAccount (x y : TokenAccount) : Type 0 where
  pub token_id : x.token_id ≡ y.token_id
  pub owner : x.owner ≡ y.owner

-- the account that the creator is given, if there is anything to give
abbrev pub give : GoString → GoString → ℤ → MemStorage Json → MemStorage Json
give id creator n s =
    if ltb_ℤ (pos 0) n
    then save_account (record (empty_account id creator) { balance = n }) s
    else s

pub data Step (sha256 : GoString → GoString) (Allowed : GoString → GoString → Type 0)
    (s : MemStorage Json) : MemStorage Json → Type 0 where
  created :
      (creator symbol : GoString) (block : ℕ) (i : TokenInfo)
      → i.id ≡ derive_token_id sha256 creator symbol block
      → has s (token_key i.id) ≡ false
      → pos 0 ≤ℤ i.total_supply
      → Step sha256 Allowed s (give i.id i.creator i.total_supply (save_token i s))
  moved :
      (t from to : GoString) (a : ℤ) (x x' y : TokenAccount)
      → Allowed from to
      → get_account s t from ≡ ok x
      → get_or_create_account s t to ≡ ok y
      → pos 0 <ℤ a
      → a ≤ℤ x.balance
      → IsSameAccount x' x
      → x'.balance ≡ x.balance -ℤ a
      → Step sha256 Allowed s
          (save_account (record y { balance = y.balance +ℤ a }) (save_account x' s))
  minted :
      (t to : GoString) (a : ℤ) (i : TokenInfo) (y : TokenAccount)
      → get_token s t ≡ ok i
      → i.mint_authority ≢ []
      → get_or_create_account s t to ≡ ok y
      → pos 0 <ℤ a
      → Step sha256 Allowed s (
          save_token
            (record i { total_supply = i.total_supply +ℤ a })
            (save_account (record y { balance = y.balance +ℤ a }) s))
  burned :
      (t from : GoString) (a : ℤ) (i : TokenInfo) (x : TokenAccount)
      → get_token s t ≡ ok i
      → get_account s t from ≡ ok x
      → pos 0 <ℤ a
      → a ≤ℤ x.balance
      → Step sha256 Allowed s (
          save_token
            (record i { total_supply = i.total_supply -ℤ a })
            (save_account (record x { balance = x.balance -ℤ a }) s))
  relabelled :
      (t owner : GoString) (x x' : TokenAccount)
      → get_or_create_account s t owner ≡ ok x
      → (get_account s t owner ≡ ok x) ⊎ ((i : TokenInfo) × (get_token s t ≡ ok i))
      → IsSameAccount x' x
      → x'.balance ≡ x.balance
      → Step sha256 Allowed s (save_account x' s)
  reassigned :
      (t authority : GoString) (i : TokenInfo)
      → get_token s t ≡ ok i
      → Step sha256 Allowed s (save_token (record i { mint_authority = authority }) s)
