-- ===== src/Token/Request.antt =====
-- One value for each call that a client can make on the token program, and what a sequence of calls,
-- failed ones included, does to the program.
use rpcnode.Prelude.{ℕ, GoString, Bool, Option, List, [], ◌∷◌, Result, ok, err}
use rpcnode.Prelude.Int.{ℤ}
use rpcnode.Token.Types.{TokenError, Program}
use rpcnode.Token.{
  transfer, mint, burn, approve, transfer_from, freeze_account, set_mint_authority, create_token,
}

-- The arguments stand in the order of the methods' parameters, the clock readings last.
pub data Request : Type 0 where
  create :
      (name symbol : GoString) (decimals : ℕ) (initial_supply : Option ℤ)
      (creator mint_authority freeze_authority uri : GoString) (block : ℕ) (created_at now : ℤ)
      → Request
  transfer_req : (token_id from to : GoString) (amount : Option ℤ) (block : ℕ) (now : ℤ) → Request
  mint_req : (token_id authority to : GoString) (amount : Option ℤ) (block : ℕ) (now : ℤ) → Request
  burn_req :
      (token_id authority from : GoString) (amount : Option ℤ) (block : ℕ) (now : ℤ) → Request
  approve_req :
      (token_id owner delegate : GoString) (amount : Option ℤ) (block : ℕ) (now : ℤ) → Request
  transfer_from_req :
      (token_id delegate from to : GoString) (amount : Option ℤ) (block : ℕ) (now : ℤ) → Request
  freeze_req : (token_id freeze_auth target : GoString) (freeze : Bool) → Request
  set_authority_req : (token_id current_auth new_auth : GoString) → Request

abbrev pub outcome : {A : Type 0} → Result TokenError A → Result TokenError (Unit {0})
outcome (ok _) = ok tt
outcome (err e) = err e

unfoldable pub serve :
    (GoString → GoString) → Request → Program → Result TokenError (Unit {0}) × Program
serve sha256 (create name symbol decimals supply creator mint_auth freeze_auth uri block c n) p =
    let (r, p') =
      create_token sha256 name symbol decimals supply creator mint_auth freeze_auth uri block c n
        p in
    (outcome r, p')
serve sha256 (transfer_req t f d a b n) p = transfer t f d a b n p
serve sha256 (mint_req t e d a b n) p = mint t e d a b n p
serve sha256 (burn_req t e f a b n) p = burn t e f a b n p
serve sha256 (approve_req t o d a b n) p = approve t o d a b n p
serve sha256 (transfer_from_req t e f d a b n) p = transfer_from t e f d a b n p
serve sha256 (freeze_req t e o z) p = freeze_account t e o z p
serve sha256 (set_authority_req t c n) p = set_mint_authority t c n p

unfoldable pub serve_all : (GoString → GoString) → List Request → Program → Program
serve_all sha256 [] p = p
serve_all sha256 (r ∷ rs) p = serve_all sha256 rs (serve sha256 r p).1

-- the pairs of accounts between which a request moves an amount are all allowed
abbrev pub IsAllowed : (GoString → GoString → Type 0) → Request → Type 0
IsAllowed Allowed (transfer_req t f d a b n) = Allowed f d
IsAllowed Allowed (transfer_from_req t e f d a b n) = Allowed f d
IsAllowed Allowed _ = Unit

abbrev pub AreAllowed : (GoString → GoString → Type 0) → List Request → Type 0
AreAllowed Allowed [] = Unit
AreAllowed Allowed (r ∷ rs) = IsAllowed Allowed r × AreAllowed Allowed rs

pub any_allowed : (rs : List Request) → AreAllowed (λ _ _. Unit {0}) rs
any_allowed [] = tt
any_allowed (transfer_req t f d a b n ∷ rs) = (tt, any_allowed rs)
any_allowed (_ ∷ rs) = (tt, any_allowed rs)
