-- ===== src/Tests/Streams.antt =====
-- One stream query and one stream action with a limit of 100 bytes, and a body of four bytes.
use pilothouse.Base.{
  arith, ℕ, ◌≡◌, refl, String, true, false, Option, none, some, List, [], ◌∷◌, string_eq, ok,
  Result, pos,
}
use pilothouse.Auth.{Identity}
use pilothouse.Broker.Params.{Parameters, value_at}
use pilothouse.Broker.Faults.{HandlerFault}
use pilothouse.Broker.Actions.Protocol.{begun_number, untaken, unbegun, follows}
use pilothouse.Broker.Streams.{
  StreamResult, StreamQueryRegistry, StreamActionRegistry, StreamAnswers, execute_stream_action,
}
use pilothouse.Broker.Streams.Calls.{stream_protocol}
use pilothouse.Broker.Streams.Reader.{
  Choice, eof, too_large, new_stream_limit_reader, read_limited, read, read_all, Delivered,
  limit_reader_lem,
}
use pilothouse.Tests.Resolver.{ada}

abbrev named : Parameters
named = ("name", "etc/motd") ∷ []

abbrev found : Identity → Parameters → Result HandlerFault StreamResult
found identity m = ok (record { has_body = true; size = pos 42 })

abbrev queries : StreamQueryRegistry
queries =
    (
      "file.read",
      record {
        id = "file.read";
        admin = false;
        parameters = "name" ∷ [];
        limit = pos 100;
        handler = found;
      },
    )
    ∷ []

abbrev by_name : Parameters → Result HandlerFault String
by_name m = ok (value_at "name" m)

abbrev written : Identity → Parameters → Option HandlerFault
written identity m = none

abbrev actions : StreamActionRegistry
actions = record {
  actions =
      (
        "file.write",
        record {
          id = "file.write";
          admin = true;
          parameters = "name" ∷ [];
          limit = pos 100;
          resource = by_name;
          lock_resource = none;
          handler = written;
        },
      )
      ∷ [];
  has_audit = true;
  has_problems = true;
}

abbrev answers : StreamAnswers
answers = record { lock_wait = none; begin = ok 7; audit_complete = none }

stream_protocol_example :
    follows true
      (begun_number answers.begin)
      untaken
      unbegun
      (execute_stream_action actions answers ada "file.write" named).events
    ≡ some false
stream_protocol_example = stream_protocol actions answers ada "file.write" named

-- Two bytes at once, then the rest; with a limit of three the fourth byte is noticed.
abbrev body : List ℕ
body = 10 ∷ 20 ∷ 30 ∷ 40 ∷ []

abbrev reads : List (Choice × ℕ)
reads =
    (record { chunk = 2; tells_end = false; breaks = false }, 16)
    ∷ (record { chunk = 16; tells_end = false; breaks = false }, 16)
    ∷ (record { chunk = 16; tells_end = true; breaks = false }, 16)
    ∷ []

exceeding_told :
    read_all reads (new_stream_limit_reader body 3)
    ≡ record { bytes = 10 ∷ 20 ∷ 30 ∷ []; end = some too_large }
unfolding read_all read read_limited new_stream_limit_reader
exceeding_told = refl

end_told : read_all reads (new_stream_limit_reader body 4) ≡ record { bytes = body; end = some eof }
unfolding read_all read read_limited new_stream_limit_reader
end_told = refl

limit_reader_lem_example :
    Delivered (new_stream_limit_reader body 3) (read_all reads (new_stream_limit_reader body 3))
limit_reader_lem_example = limit_reader_lem body 3 reads (omega arith)
