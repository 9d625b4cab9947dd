-- ===== src/Payload/Errors.antt =====
-- pkg/payload/errors.go: error payloads, the chain of wrapped errors and the stack trace. What the
-- runtime gives, the type name of an error and the frames of the stack, is data.
pub mod Chain
use logflux_go_sdk.Prelude.{
  ℕ, zero, suc, ℤ, pos, Bool, List, [], ◌∷◌, ◌++◌, Option, none, some, if◌then◌else◌, leb, ◌==◌,
  ◌&&◌, Str, codes, has_prefix, length, not, take,
}
use logflux_go_sdk.Models.{Labels}
use logflux_go_sdk.Breadcrumbs.{Breadcrumb, BreadcrumbRing, snapshot}
use logflux_go_sdk.Payload.{Common, Fields, assign}
use logflux_go_sdk.Payload.Kinds.{new_common, set_attributes}

-- A Go error as this code sees it: the text of `%T`, that of `Error`, and what `Unwrap` gives.
pub data ErrorValue : Type 0 where
  basic : Str → Str → ErrorValue
  wrapping : Str → Str → ErrorValue → ErrorValue

pub record ChainedError : Type 0 where
  pub kind : Str
  pub message : Str

pub record StackFrame : Type 0 where
  pub function : Str
  pub file : Str
  pub line : ℕ

pub record ErrorPayload : Type 0 where
  pub common : Common
  pub message : Str
  pub logger : Str
  pub error_type : Str
  pub error_chain : List ChainedError
  pub stack_trace : List StackFrame
  pub breadcrumbs : List Breadcrumb

abbrev pub go_type : ErrorValue → Str
go_type (basic kind text) = kind
go_type (wrapping kind text e) = kind

abbrev pub text_of : ErrorValue → Str
text_of (basic kind text) = text
text_of (wrapping kind text e) = text

abbrev pub unwrap : ErrorValue → Option ErrorValue
unwrap (basic kind text) = none
unwrap (wrapping kind text e) = some e

-- `strings.TrimPrefix(t, "*")`
unfoldable pub trim_star : Str → Str
trim_star [] = []
trim_star (c ∷ cs) = if c == b'*' then cs else c ∷ cs

unfoldable pub error_type_name : ErrorValue → Str
unfolding trim_star
error_type_name e = trim_star (go_type e)

-- The loop, with the rounds that are left.
unfoldable pub unwrap_from : ℕ → Option ErrorValue → List ChainedError
unfolding error_type_name
unwrap_from zero current = []
unwrap_from (suc rounds) none = []
unwrap_from (suc rounds) (some e) =
    record { kind = error_type_name e; message = text_of e } ∷ unwrap_from rounds (unwrap e)

unfoldable pub unwrap_error_chain : ErrorValue → List ChainedError
unfolding unwrap_from
unwrap_error_chain e =
    let chain = unwrap_from 10 (some e) in if leb (length chain) 1 then [] else chain

-- The loop over the frames that the runtime gives, from those collected so far. The last frame is the
-- one after which `more` is false.
unfoldable pub collect_frames : List StackFrame → List StackFrame → List StackFrame
collect_frames frames [] = frames
collect_frames frames (frame ∷ more) =
    let internal = has_prefix frame.function (codes "runtime.") in
    let next = if internal then frames else frames ++ frame ∷ [] in
    let rest = collect_frames next more in
    if not internal && leb 20 (length next) then next else rest

-- `runtime.Callers` fills a slice of 32 program counters, one for each frame.
unfoldable pub capture_stack_trace : List StackFrame → List StackFrame
unfolding collect_frames
capture_stack_trace frames = collect_frames [] (take 32 frames)

unfoldable pub new_error_payload : Str → List StackFrame → Str → ErrorValue → ErrorPayload
unfolding new_common error_type_name unwrap_error_chain capture_stack_trace
new_error_payload ts frames source e = record {
  common = new_common ts (codes "log") source (pos 4);
  message = text_of e;
  logger = codes "";
  error_type = error_type_name e;
  error_chain = unwrap_error_chain e;
  stack_trace = capture_stack_trace frames;
  breadcrumbs = [];
}

-- The constructor leaves the attributes nil, so the error's text is the first.
unfoldable pub new_error_payload_with_message :
    Str → List StackFrame → Str → ErrorValue → Str → ErrorPayload
unfolding new_common set_attributes error_type_name capture_stack_trace assign
new_error_payload_with_message ts frames source e message = record {
  common =
      set_attributes (new_common ts (codes "log") source (pos 4))
        (some (assign (codes "error") (text_of e) []));
  message = message;
  logger = codes "";
  error_type = error_type_name e;
  error_chain = [];
  stack_trace = capture_stack_trace frames;
  breadcrumbs = [];
}

unfoldable pub with_breadcrumbs : ErrorPayload → BreadcrumbRing → ErrorPayload
unfolding snapshot
with_breadcrumbs p ring = record p { breadcrumbs = snapshot ring }
