-- ===== src/Samples/Inspection.antt =====
-- inspector.py with one collector. The world is the number of requests.
use test_frerfhrebfd.Common.{ℕ, suc, some, List, [], ◌∷◌}
use test_frerfhrebfd.Exec.{ok, Exec}
use test_frerfhrebfd.Value.{Value, Fields}
use test_frerfhrebfd.Inspector.{Inspection, Reply, Collector}

abbrev collect : Exec (Inspection ℕ) (Unit {0})
collect s = (ok tt, record s { collected = Fields.field "cpus" (Value.number 4) s.collected })

abbrev collectors : List (Collector ℕ)
collectors = ("default", collect) ∷ []

abbrev load : Exec ℕ (List (Collector ℕ))
load w = (ok collectors, w)

abbrev post : Fields → Exec ℕ Reply
post body w = (ok (record { status_code = 200; uuid = some "1be2" }), suc w)

abbrev inspected : Inspection ℕ
inspected = record {
  collected = Fields.field "cpus" (Value.number 4) (Fields.field "error" Value.null Fields.end);
  failures = [];
  world = 1;
}
