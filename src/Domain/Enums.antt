-- ===== src/Domain/Enums.antt =====
-- domain/enums.py, with `OPEN` spelled `opened`. `value` is the text of a StrEnum member.
use Prim.Native.String.{String}

pub data IncidentStatus : Type 0 where
  opened investigating waiting_approval remediating resolved failed : IncidentStatus

pub data PlanStatus : Type 0 where
  draft pending_approval approved rejected executing succeeded failed expired : PlanStatus

pub data ActionStatus : Type 0 where
  queued running succeeded failed rolled_back : ActionStatus

pub data RiskLevel : Type 0 where
  read_only low medium high : RiskLevel

-- `RiskLevel.value`
unfoldable pub value : RiskLevel → String
value read_only = "read_only"
value low = "low"
value medium = "medium"
value high = "high"
