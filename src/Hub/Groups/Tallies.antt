-- ===== src/Hub/Groups/Tallies.antt =====
-- What the counts of the buckets are.
use agent_os_test.Prelude.{◌+◌, ◌≡◌, List, [], ◌∷◌, filter, length, arith}
use agent_os_test.Hub.{
  UnifiedConnector, is_connected, is_ready_to_connect, is_coming_soon, status_bucket,
}
use agent_os_test.Hub.Groups.{Counts, bump, count_on, bucket_counts}

count_on-states :
    (l : List UnifiedConnector) (k : Counts)
    → let m = count_on l k in
      (m.of_connected ≡ length (filter is_connected l) + k.of_connected)
      × (m.of_not_built ≡ length (filter is_coming_soon l) + k.of_not_built)
      × (m.of_needs_verification + m.of_needs_setup
          ≡ length (filter is_ready_to_connect l) + (k.of_needs_verification + k.of_needs_setup))
unfolding status_bucket is_connected is_coming_soon is_ready_to_connect
count_on-states [] k = (omega arith, omega arith, omega arith)
count_on-states (c ∷ l) k = ground (arith, count_on-states l (bump (status_bucket c) k))

-- The count of the connected is the number of connectors shown as connected, that of those not
-- built the number shown as coming soon, and the other two add up to the number shown as ready to
-- connect.
pub bucket_counts-states :
    (l : List UnifiedConnector)
    → let k = bucket_counts l in
      (k.of_connected ≡ length (filter is_connected l))
      × (k.of_not_built ≡ length (filter is_coming_soon l))
      × (k.of_needs_verification + k.of_needs_setup ≡ length (filter is_ready_to_connect l))
unfolding bucket_counts
bucket_counts-states l = ground (
  arith,
  count_on-states l (record {
    of_connected = 0;
    of_needs_verification = 0;
    of_needs_setup = 0;
    of_not_built = 0;
  }),
)
