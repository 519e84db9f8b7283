-- ===== src/Vm/Contract.antt =====
-- `ContractAccount` of gpl/vm/vm.go: its storage and its deployment.
use rpcnode.Prelude.{
  ℕ, ◌++◌, GoString, bytes, decimal, hex_encode, Option, none, some, [], Result, ok, err, ltb,
  if◌then◌else◌, length, take, replicate,
}
use rpcnode.Prelude.Int.{pos}
use rpcnode.Prelude.Bytes.{hex_decode}
use rpcnode.Prelude.Dict.{lookup, insert}
use rpcnode.Vm.Types.{VmError, code_too_large, ContractAccount, max_code_size}
use rpcnode.Vm.Words.{pad_to_32}

-- a word of 32 bytes, from hexadecimal text or zeros
abbrev pub word_from : Option GoString → GoString
word_from none = replicate 32 0
word_from (some v) = pad_to_32 (hex_decode v)

unfoldable pub storage_get : GoString → ContractAccount → GoString
storage_get key ca = word_from (lookup (hex_encode key) ca.storage)

unfoldable pub storage_set : GoString → GoString → ContractAccount → ContractAccount
storage_set key value ca = record ca {
  storage = insert (hex_encode key) (hex_encode value) ca.storage;
}

unfoldable pub deploy_code :
    (GoString → GoString) → GoString → GoString → ℕ → Result VmError ContractAccount
deploy_code sha256 code deployer nonce =
    if ltb max_code_size (length code)
    then err code_too_large
    else ok (record {
      address =
          bytes "0x" ++ hex_encode (take 20 (sha256 (deployer ++ (bytes ":" ++ decimal nonce))));
      code = code;
      storage = [];
      balance = some (pos 0);
      code_hash = hex_encode (sha256 code);
      nonce = 0;
    })
