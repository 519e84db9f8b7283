-- ===== src/Storage/Document.antt =====
-- Reading a stored document: what gpl/token/token.go and gpl/staking/staking.go do after `Get`.
use rpcnode.Prelude.{Option, none, some, Result, ok, err}
use rpcnode.Json.{Json}
use rpcnode.Storage.{StorageError}

-- `ErrNotFound` becomes `missing`, and a document that cannot be decoded `bad`.
abbrev pub decoded :
    {E A : Type 0} → E → E → (Json → Option A) → Result StorageError Json → Result E A
decoded missing bad unmarshal (err e) = err missing
decoded missing bad unmarshal (ok raw) = elim (unmarshal raw) [ none ↦ err bad | some a ↦ ok a ]
