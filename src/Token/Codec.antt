-- ===== src/Token/Codec.antt =====
-- The JSON documents of `TokenInfo` and `TokenAccount`, by the struct tags of gpl/token/token.go.
use rpcnode.Prelude.{GoString, ◌≡◌, refl, Option, none, some, [], ◌∷◌}
use rpcnode.Json.{
  Json, bool, num, str, obj, end, field, field?, read_str, as_object, read_bool, read_uint,
  read_int, read_big, omit_str, omit_big, or_zero, ◌>>=◌,
}
use rpcnode.Prelude.Int.{ℤ, pos}
use rpcnode.Token.Types.{TokenInfo, TokenAccount}

unfoldable pub marshal_token : TokenInfo → Json
marshal_token t = obj (
    field "id" (str t.id) (
      field "name" (str t.name) (
        field "symbol" (str t.symbol) (
          field "decimals" (num (pos t.decimals)) (
            field "totalSupply" (num t.total_supply) (
              field "mintAuthority" (str t.mint_authority) (
                field "freezeAuthority" (str t.freeze_auth) (
                  field "creator" (str t.creator)
                    (field "createdAt" (num t.created_at) (omit_str "uri" t.uri end))))))))))

unfoldable pub unmarshal_token : Json → Option TokenInfo
unmarshal_token doc = do
  fs ← as_object doc
  id ← read_str (field? "id" fs)
  name ← read_str (field? "name" fs)
  symbol ← read_str (field? "symbol" fs)
  decimals ← read_uint (field? "decimals" fs)
  supply ← read_big (field? "totalSupply" fs)
  mint_authority ← read_str (field? "mintAuthority" fs)
  freeze_auth ← read_str (field? "freezeAuthority" fs)
  creator ← read_str (field? "creator" fs)
  created_at ← read_int (field? "createdAt" fs)
  uri ← read_str (field? "uri" fs)
  some (record {
    id = id;
    name = name;
    symbol = symbol;
    decimals = decimals;
    total_supply = or_zero supply;
    mint_authority = mint_authority;
    freeze_auth = freeze_auth;
    creator = creator;
    created_at = created_at;
    uri = uri;
  })

-- Reading back a token document gives the token that was written.
pub unmarshal_token-marshal_token : (t : TokenInfo) → unmarshal_token (marshal_token t) ≡ some t
unfolding unmarshal_token marshal_token
unmarshal_token-marshal_token t = go t.uri t refl
  where
    go : (u : GoString) (t : TokenInfo) → u ≡ t.uri → unmarshal_token (marshal_token t) ≡ some t
    go [] t e = rw (← e)
    go (c ∷ u) t e = rw (← e)

unfoldable pub marshal_account : TokenAccount → Json
marshal_account a = obj (
    field "tokenId" (str a.token_id) (
      field "owner" (str a.owner) (
        field "balance" (num a.balance) (
          field "frozen" (bool a.frozen)
            (omit_str "delegate" a.delegate (omit_big "allowance" a.allowance end))))))

unfoldable pub unmarshal_account : Json → Option TokenAccount
unmarshal_account doc = do
  fs ← as_object doc
  token_id ← read_str (field? "tokenId" fs)
  owner ← read_str (field? "owner" fs)
  balance ← read_big (field? "balance" fs)
  frozen ← read_bool (field? "frozen" fs)
  delegate ← read_str (field? "delegate" fs)
  allowance ← read_big (field? "allowance" fs)
  some (record {
    token_id = token_id;
    owner = owner;
    balance = or_zero balance;
    frozen = frozen;
    delegate = delegate;
    allowance = allowance;
  })

-- Reading back an account document gives the account that was written.
pub unmarshal_account-marshal_account :
    (a : TokenAccount) → unmarshal_account (marshal_account a) ≡ some a
unfolding unmarshal_account marshal_account
unmarshal_account-marshal_account a = go a.delegate a.allowance a refl refl
  where
    go :
        (d : GoString) (n : Option ℤ) (a : TokenAccount)
        → d ≡ a.delegate
        → n ≡ a.allowance
        → unmarshal_account (marshal_account a) ≡ some a
    go [] none a e h = rw (← e, ← h)
    go [] (some n) a e h = rw (← e, ← h)
    go (c ∷ d) none a e h = rw (← e, ← h)
    go (c ∷ d) (some n) a e h = rw (← e, ← h)
