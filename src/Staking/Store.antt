-- ===== src/Staking/Store.antt =====
-- The storage helpers of gpl/staking/staking.go: keys, `getValidator`, `saveValidator`,
-- `getDelegation`, `saveDelegation`, `saveSlash`. Their laws make the store a map of validators and a
-- map of delegations.
use rpcnode.Prelude.{
  ℕ, ◌≡◌, refl, GoString, bytes, str_eq, ◌++◌, arith, Result, ok, err, str_eq-append_left, decimal,
  if◌then◌else◌,
}
use rpcnode.Json.{Json}
use rpcnode.Storage.{MemStorage, get, put}
use rpcnode.Storage.Document.{decoded}
use rpcnode.Storage.Laws.{get-put}
use rpcnode.Staking.Types.{
  StakingError, validator_not_found, delegation_not_found, bad_document, ValidatorInfo, Delegation,
  SlashRecord,
}
use rpcnode.Staking.Codec.{
  marshal_validator, unmarshal_validator, marshal_delegation, unmarshal_delegation, marshal_slash,
  unmarshal_validator-marshal_validator, unmarshal_delegation-marshal_delegation,
}

unfoldable pub validator_key : GoString → GoString
validator_key addr = bytes "staking/validator/" ++ addr

-- the part of a delegation's key that its validator fixes
abbrev pub delegation_prefix : GoString → GoString
delegation_prefix v = bytes "staking/delegation/" ++ (v ++ bytes "/")

unfoldable pub delegation_key : GoString → GoString → GoString
delegation_key v d = delegation_prefix v ++ d

unfoldable pub slash_key : GoString → ℕ → GoString
slash_key v idx = bytes "staking/slash/" ++ (v ++ (bytes "/" ++ decimal idx))

unfoldable pub get_validator : GoString → MemStorage Json → Result StakingError ValidatorInfo
get_validator addr s =
    decoded validator_not_found bad_document unmarshal_validator (get s (validator_key addr))

unfoldable pub save_validator : ValidatorInfo → MemStorage Json → MemStorage Json
save_validator v = put (validator_key v.address) (marshal_validator v)

unfoldable pub get_delegation :
    GoString → GoString → MemStorage Json → Result StakingError Delegation
get_delegation v d s =
    decoded (delegation_not_found d v) bad_document unmarshal_delegation
      (get s (delegation_key v d))

unfoldable pub save_delegation : Delegation → MemStorage Json → MemStorage Json
save_delegation d = put (delegation_key d.validator d.delegator) (marshal_delegation d)

-- the index is the slash count of the validator that is stored, 0 if there is none
abbrev pub slash_index : Result StakingError ValidatorInfo → ℕ
slash_index (ok v) = v.slash_count
slash_index (err e) = 0

unfoldable pub save_slash : GoString → SlashRecord → MemStorage Json → MemStorage Json
save_slash v r s = put (slash_key v (slash_index (get_validator v s))) (marshal_slash r) s

validator_key-eq : (a b : GoString) → str_eq (validator_key a) (validator_key b) ≡ str_eq a b
unfolding validator_key
validator_key-eq a b = str_eq-append_left (bytes "staking/validator/") a b

pub delegation_key-eq :
    (v d d' : GoString) → str_eq (delegation_key v d) (delegation_key v d') ≡ str_eq d d'
unfolding delegation_key
delegation_key-eq v d d' = str_eq-append_left (delegation_prefix v) d d'

module _ (s : MemStorage Json) (a : GoString) where
  pub get_validator-save_validator :
      (v : ValidatorInfo)
      → get_validator a (save_validator v s)
        ≡ (if str_eq v.address a then ok v else get_validator a s)
  unfolding get_validator save_validator
  get_validator-save_validator v = ground (
    arith,
    get-put s (validator_key a) (validator_key v.address) (marshal_validator v),
    unmarshal_validator-marshal_validator v,
    validator_key-eq v.address a,
  )

  pub get_validator-save_delegation :
      (d : Delegation) → get_validator a (save_delegation d s) ≡ get_validator a s
  unfolding get_validator save_delegation validator_key delegation_key str_eq
  get_validator-save_delegation d =
      rw
        (get-put s (validator_key a) (delegation_key d.validator d.delegator)
          (marshal_delegation d))
        refl

  pub get_validator-save_slash :
      (v : GoString) (r : SlashRecord) → get_validator a (save_slash v r s) ≡ get_validator a s
  unfolding get_validator save_slash validator_key slash_key str_eq
  get_validator-save_slash v r =
      rw
        (get-put s (validator_key a) (slash_key v (slash_index (get_validator v s)))
          (marshal_slash r))
        refl

module _ (s : MemStorage Json) (a o : GoString) where
  pub get_delegation-save_delegation :
      (d : Delegation)
      → get_delegation a o (save_delegation d s) ≡ (
          if str_eq (delegation_key d.validator d.delegator) (delegation_key a o)
          then ok d
          else get_delegation a o s)
  unfolding get_delegation save_delegation
  get_delegation-save_delegation d = ground (
    arith,
    get-put s (delegation_key a o) (delegation_key d.validator d.delegator) (marshal_delegation d),
    unmarshal_delegation-marshal_delegation d,
  )

  pub get_delegation-save_validator :
      (v : ValidatorInfo) → get_delegation a o (save_validator v s) ≡ get_delegation a o s
  unfolding get_delegation save_validator validator_key delegation_key str_eq
  get_delegation-save_validator v =
      rw (get-put s (delegation_key a o) (validator_key v.address) (marshal_validator v)) refl

  pub get_delegation-save_slash :
      (v : GoString) (r : SlashRecord)
      → get_delegation a o (save_slash v r s) ≡ get_delegation a o s
  unfolding get_delegation save_slash delegation_key slash_key str_eq
  get_delegation-save_slash v r =
      rw
        (get-put s (delegation_key a o) (slash_key v (slash_index (get_validator v s)))
          (marshal_slash r))
        refl
