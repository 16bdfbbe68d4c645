-- ===== src/Matrix/Tests.antt =====
-- A matrix of one exact and one server-wide entry.
use thinklocal_mcp.Base.{◌≡◌, refl, true, some, List, [], ◌∷◌, In, here, there, ◌↔◌}
use thinklocal_mcp.Base.Text.{Text, codes, trim}
use thinklocal_mcp.Matrix.{
  Value, object, field, end, array, nil, cons, text, gate, human, by_consensus, FreigabeEntry,
  ResolveContext, ok, refused, unknown_server, parse_freigabe_matrix, parse_entries, parse_entry,
  parse_decider_text, resolve_entry, is_routable, target_of,
}
use thinklocal_mcp.Matrix.Resolution.{covers, routable_iff}
use thinklocal_mcp.Matrix.Specific.{exact_wins}

abbrev raw : Value
raw = object (
    field (codes "entries")
      (array (
        cons
          (object (
            field (codes "tier") (text (codes "gate")) (
              field (codes "server") (text (codes "unifi")) (
                field (codes "channel") (text (codes "tg"))
                  (field (codes "decider") (text (codes "consensus:quorum=12")) end)))))
          (cons
            (object (
              field (codes "tier") (text (codes "gate")) (
                field (codes "server") (text (codes "unifi")) (
                  field (codes "tool") (text (codes "ban")) (
                    field (codes "channel") (text (codes "mail"))
                      (field (codes "decider") (text (codes "human:eve")) end))))))
            nil)))
      end)

abbrev wide : FreigabeEntry
wide = record {
  tier = gate;
  server = codes "unifi";
  tool = codes "*";
  channel = codes "tg";
  decider = by_consensus 12;
}

abbrev narrow : FreigabeEntry
narrow = record {
  tier = gate;
  server = codes "unifi";
  tool = codes "ban";
  channel = codes "mail";
  decider = human (codes "eve");
}

abbrev servers : List Text
servers = codes "unifi" ∷ []

abbrev entries : List FreigabeEntry
entries = wide ∷ narrow ∷ []

parses : parse_freigabe_matrix raw servers ≡ ok entries
unfolding parse_freigabe_matrix parse_entries parse_entry parse_decider_text trim
parses = refl

stranger : parse_freigabe_matrix raw [] ≡ refused unknown_server
unfolding parse_freigabe_matrix parse_entries parse_entry parse_decider_text trim
stranger = refl

abbrev call : ResolveContext
call = record { tier = gate; server = codes "unifi"; tool = codes "ban" }

routable_iff_example :
    (is_routable (resolve_entry entries call) ≡ true)
    ↔ ((e : FreigabeEntry) × In e entries × (covers call e ≡ true))
routable_iff_example = routable_iff raw servers entries call parses

exact_wins_example : resolve_entry entries call ≡ target_of (some narrow)
exact_wins_example = exact_wins raw servers entries call narrow parses (there (here refl)) refl
