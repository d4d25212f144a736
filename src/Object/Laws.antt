-- ===== src/Object/Laws.antt =====
-- What reading, inserting and removing typed parameters do to one another.
use openid4vp.Common.{◌≡◌, none, some, ok, err, Anyhow, arith, string_eq, if◌then◌else◌, ◌==◌}
use openid4vp.Common.Dict
use openid4vp.Json.{Json}
use openid4vp.Object.{UntypedObject, TypedParameter, get, insert, remove}

module _ {ℓ κ} {T : Type ℓ} {U : Type κ} (p : TypedParameter T) (q : TypedParameter U) where
  -- After the insertion of a parameter that serialises to a value, a parameter of the same key
  -- is read from that value, and a parameter of another key reads as before.
  pub get-insert :
      (t : T) (o : UntypedObject) {v : Json}
      → p.try_into t ≡ ok v
      → get q (insert p t o).0 ≡ (if p.key == q.key then some (q.try_from v) else get q o)
  unfolding get insert
  get-insert t o {v} h = ground (arith, Dict.lookup-insert q.key p.key v o.map)

  pub get-insert_failed :
      (t : T) (o : UntypedObject) {e : Anyhow} → p.try_into t ≡ err e → (insert p t o).0 ≡ o
  unfolding insert
  get-insert_failed t o h = ground arith

  -- After the removal of a parameter, nothing is read under its key, and a parameter of another
  -- key reads as before.
  pub get-remove :
      (o : UntypedObject) → get q (remove p o).0 ≡ (if p.key == q.key then none else get q o)
  unfolding get remove
  get-remove o = ground (arith, Dict.lookup-erase q.key p.key o.map)
