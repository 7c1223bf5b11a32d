-- ===== src/Storage/PomboGates/Uncached.antt =====
-- What the chain says, asked without any cache.
use pombo_storage_node.Base.{
  Bool, true, Option, none, some, if◌then◌else◌, Result, ok, ◌==◌, eq_list, eq_nat,
}
use pombo_storage_node.Base.Text.{Text}
use pombo_storage_node.Storage.Outside.{Outside, ErrorCode, public_subscribe, user_subscribe}
use pombo_storage_node.Storage.PomboGates.{GateInfo, ◌>>=◌, get_info, gate_address_of}

-- The gate of a stream.
unfoldable pub resolve : Outside → Text → Result ErrorCode (Option GateInfo)
resolve out stream_id = do
  metadata ← out.get_stream_metadata stream_id
  address ← gate_address_of out stream_id metadata
  elim address [
    | none ↦ ok none
    | some gate_address ↦ get_info out gate_address >>= λ info. ok (some info)
  ]

abbrev pub or_else : Result ErrorCode Bool → Result ErrorCode Bool → Result ErrorCode Bool
or_else r s = r >>= λ allowed. if allowed then ok true else s

-- Whether a gate admits a user: the owner, its moderators and whom it accepts.
unfoldable pub admits : Outside → GateInfo → Text → Result ErrorCode Bool
admits out info user =
    if user == info.owner
    then ok true
    else or_else (out.gate_moderators info.address user) (out.gate_check_access info.address user)

-- Whether a user may subscribe to a stream without a gate.
unfoldable pub subscribes : Outside → Text → Text → Result ErrorCode Bool
subscribes out stream_id user =
    or_else (out.has_permission (public_subscribe stream_id))
      (out.has_permission (user_subscribe stream_id user))

unfoldable pub may_read : Outside → Text → Text → Result ErrorCode Bool
unfolding admits subscribes
may_read out stream_id user = resolve out stream_id >>= λ gate. elim gate [
  | none ↦ subscribes out stream_id user
  | some info ↦ admits out info user
]
