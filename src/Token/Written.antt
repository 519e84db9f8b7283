-- ===== src/Token/Written.antt =====
-- The store after an account and then the token were written, as `Mint` and `Burn` do
-- (gpl/token/token.go).
use rpcnode.Prelude.{◌≡◌, GoString, str_eq, str_eq_iff, arith, ok, if◌then◌else◌}
use rpcnode.Json.{Json}
use rpcnode.Storage.{MemStorage}
use rpcnode.Token.Types.{TokenInfo, TokenAccount}
use rpcnode.Token.Store.{
  get_token, save_token, get_account, save_account, get_account-save_account,
  get_account-save_token, get_token-save_token, token_key-eq, account_key, account_key-eq,
}

module _ (s : MemStorage Json) (t d : GoString) (j : TokenInfo) (z : TokenAccount) where
  pub token_written : j.id ≡ t → get_token (save_token j (save_account z s)) t ≡ ok j
  token_written e =
      ground
        (arith, get_token-save_token (save_account z s) t j, token_key-eq j.id t, str_eq_iff j.id t)

  pub account_written :
      (o : GoString)
      → account_key z.token_id z.owner ≡ account_key t d
      → get_account (save_token j (save_account z s)) t o
        ≡ (if str_eq d o then ok z else get_account s t o)
  account_written o k = ground (
    arith,
    get_account-save_token (save_account z s) t o j,
    get_account-save_account s t o z,
    account_key-eq t d o,
  )
