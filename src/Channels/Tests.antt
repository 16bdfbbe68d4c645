-- ===== src/Channels/Tests.antt =====
-- Two channels, the first of them unhealthy, and a matrix that names the second.
use thinklocal_mcp.Base.{◌≡◌, ◌↔◌, refl, true, some, none, List, [], ◌∷◌}
use thinklocal_mcp.Base.Text.{codes, trim}
use thinklocal_mcp.Matrix.{
  Value, object, field, end, array, nil, cons, text, gate, human, FreigabeEntry, ResolveContext, ok,
  parse_freigabe_matrix, parse_entries, parse_entry, parse_decider_text,
}
use thinklocal_mcp.Channels.{
  ApprovalRequest, is_approved, shaped, in_time, timed_out, Meldekanal, new_registry,
  request_approval, request_approval_via_matrix,
}
use thinklocal_mcp.Channels.Registry.{IsFirstUp, Consents, approved_iff}
use thinklocal_mcp.Channels.Router.{
  registry_approver, IsAbout, ChannelApproves, Decides, matrix_approves_iff,
}

abbrev yes : Meldekanal
yes = record {
  id = codes "mail";
  is_healthy = in_time true;
  answer =
      λ req. in_time (record { shape = shaped (some (codes "approved")) none; claimed = none });
}

abbrev late : Meldekanal
late = record { id = codes "tg"; is_healthy = timed_out; answer = λ req. timed_out }

abbrev channels : List Meldekanal
channels = late ∷ yes ∷ []

abbrev req : ApprovalRequest
req = record {
  request_id = codes "1";
  server = codes "unifi";
  tool = codes "ban";
  tier = gate;
  sender_uri = codes "spiffe://x";
  summary = codes "ban a client";
}

approved_iff_example :
    (is_approved (request_approval (new_registry channels) req) ≡ true)
    ↔ ((c : Meldekanal) × IsFirstUp channels c × Consents c req)
approved_iff_example = approved_iff channels req

abbrev raw : Value
raw = object (
    field (codes "entries")
      (array (
        cons
          (object (
            field (codes "tier") (text (codes "gate")) (
              field (codes "server") (text (codes "unifi")) (
                field (codes "channel") (text (codes "mail"))
                  (field (codes "decider") (text (codes "human:eve")) end)))))
          nil))
      end)

abbrev entry : FreigabeEntry
entry = record {
  tier = gate;
  server = codes "unifi";
  tool = codes "*";
  channel = codes "mail";
  decider = human (codes "eve");
}

parses : parse_freigabe_matrix raw (codes "unifi" ∷ []) ≡ ok (entry ∷ [])
unfolding parse_freigabe_matrix parse_entries parse_entry parse_decider_text trim
parses = refl

abbrev call : ResolveContext
call = record { tier = gate; server = codes "unifi"; tool = codes "ban" }

matrix_approves_iff_example :
    (is_approved
        (request_approval_via_matrix (entry ∷ []) (registry_approver channels) call req).decision
      ≡ true)
    ↔ (IsAbout call req
        × (e : FreigabeEntry) × Decides (entry ∷ []) call e
        × ChannelApproves channels req e.channel)
matrix_approves_iff_example =
    matrix_approves_iff raw (codes "unifi" ∷ []) (entry ∷ []) channels call req parses
