-- ===== src/Env/Trace.antt =====
-- The call trace of a clause, as the node returns it (`Pos.CallTracerOutput`, src/utils/pos-rest.ts).
use scan_service.Prelude.{Option, List, [], ◌∷◌}
use scan_service.Prelude.Text.{Text}

-- The `type` of a call frame, by the strings that the code compares it with.
pub data CallType : Type 0 where
  create create2 call call_code delegate_call static_call self_destruct : CallType
  unknown : Text → CallType

-- utils/pos-rest.ts: `CallTracerOutput`, but for the calls below
pub record Frame : Type 0 where
  pub call_type : CallType
  pub from : Text
  pub to : Text
  pub value : Text
  pub input : Option Text
  pub gas_used : Option Text
  pub output : Option Text
  pub error : Option Text

-- A frame without `calls`, or with them.
mutual
  pub data Call : Type 0 where
    leaf : Frame → Call
    node : Frame → Calls → Call

  pub data Calls : Type 0 where
    nil : Calls
    cons : Call → Calls → Calls

abbrev pub frame_of : Call → Frame
frame_of (leaf f) = f
frame_of (node f _) = f

abbrev pub listed : Calls → List Call
listed nil = []
listed (cons c calls) = c ∷ listed calls

-- `node.calls`, none where it is missing
abbrev pub calls_of : Call → List Call
calls_of (leaf _) = []
calls_of (node _ calls) = listed calls
