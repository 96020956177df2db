-- ===== src/Queue/Dedupe/Tests.antt =====
-- The laws of the collapse at a queue with two copies of one item.
use bfrost.Prelude.{String, is_some, includes, Distinct, ◌≡◌}
use bfrost.Examples.{clock, copies}
use bfrost.Queue.Dedupe.{dedupe_queue_by_id}
use bfrost.Queue.Dedupe.Laws.{ids, dedupe-Distinct}
use bfrost.Queue.Dedupe.Merged.{namespace, handled, namespace-dedupe}

dedupe-Distinct_example :
    Distinct (ids (dedupe_queue_by_id clock copies))
    × ((id : String)
        → includes (ids (dedupe_queue_by_id clock copies)) id ≡ includes (ids copies) id)
dedupe-Distinct_example = dedupe-Distinct clock copies

namespace-dedupe_example :
    is_some (namespace (dedupe_queue_by_id clock copies) "a" "blog") ≡ handled copies "a" "blog"
namespace-dedupe_example = namespace-dedupe clock copies "a" "blog"
