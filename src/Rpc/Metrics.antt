-- ===== src/Rpc/Metrics.antt =====
-- rpc/metrics.go: the text of `/metrics`, and what `fail2banBannedCount` reads out of the output of the
-- fail2ban client. The client is a parameter: what it prints for its arguments, `none` on an error. The
-- uptime, `%.3f` of the seconds, is an argument. Texts are ASCII, and a jail's name needs no quoting.

use rpcnode.Prelude.{
  ℕ, ◌-◌, ◌%◌, ◌^◌, GoString, bytes, decimal, has_prefix, str_eq, Bool, ◌||◌, Option, none, some,
  List, [], ◌∷◌, ◌++◌, length, ◌==◌, if◌then◌else◌, Result, ok, err,
}
use mathlib.Core.List.{reverse}
use rpcnode.Prelude.Dict.{Dict, insert}
use rpcnode.Prelude.Int.{ℤ, pos, negsuc, to_int64}
use rpcnode.Prelude.Numerals.{atoi}
use rpcnode.Core.Blocks.{decimal_int}
use rpcnode.Core.Chain.{height}
use rpcnode.Core.Views.{Stats, stats}
use rpcnode.Rpc.Types.{Server, Panic, out_of_range}

-- `uint64(x)` of an `int64`
unfoldable pub to_uint64 : ℤ → ℕ
to_uint64 (pos n) = n % 2 ^ 64
to_uint64 (negsuc n) = 2 ^ 64 - 1 - n % 2 ^ 64

abbrev pub newline : GoString
newline = b'\n' ∷ []

-- the lines `# HELP` and `# TYPE` of a metric
abbrev about : GoString → GoString → GoString → GoString
about name help kind =
    bytes "# HELP "
    ++ name
    ++ bytes " "
    ++ help
    ++ newline
    ++ bytes "# TYPE "
    ++ name
    ++ bytes " "
    ++ kind
    ++ newline

abbrev metric : GoString → GoString → GoString → GoString → GoString
metric name help kind value =
    about name help kind ++ name ++ bytes " " ++ value ++ newline ++ newline

-- `strings.Split(s, c)` with a separator of one byte; `cur` are the bytes since the last one
abbrev pub split_onto : ℕ → GoString → GoString → List GoString
split_onto c cur [] = cur ∷ []
split_onto c cur (b ∷ s) =
    let closed = cur ∷ split_onto c [] s in
    let longer = split_onto c (cur ++ b ∷ []) s in if b == c then closed else longer

unfoldable pub split : ℕ → GoString → List GoString
split c s = split_onto c [] s

-- `strings.SplitN(s, ":", 2)[1]`, where there are two parts
unfoldable pub after_colon : GoString → Option GoString
after_colon [] = none
after_colon (b ∷ s) = let rest = after_colon s in if b == b':' then some s else rest

-- `strings.Contains(s, p)`, the part first
unfoldable pub contains : GoString → GoString → Bool
contains p [] = has_prefix p []
contains p (b ∷ s) = has_prefix p (b ∷ s) || contains p s

abbrev pub is_blank : ℕ → Bool
is_blank c = (c == 9) || (c == 10) || (c == 11) || (c == 12) || (c == 13) || (c == 32)

unfoldable pub trim_left : GoString → GoString
trim_left [] = []
trim_left (b ∷ s) = let rest = trim_left s in if is_blank b then rest else b ∷ s

-- `strings.TrimSpace`
unfoldable pub trim_space : GoString → GoString
unfolding trim_left
trim_space s = reverse (trim_left (reverse (trim_left s)))

-- the names of one line, appended where they are not blank
unfoldable pub named : List GoString → List GoString
unfolding trim_space
named [] = []
named (j ∷ js) =
    let name = trim_space j in let rest = named js in if str_eq name [] then rest else name ∷ rest

abbrev pub names_after : Option GoString → List GoString
names_after none = []
names_after (some s) = named (split b',' s)

-- the loop over the lines of the client's status
unfoldable pub jails : List GoString → List GoString
unfolding named split after_colon contains
jails [] = []
jails (line ∷ lines) =
    let rest = jails lines in
    if contains (bytes "Jail list:") line then names_after (after_colon line) ++ rest else rest

abbrev count_in : Option ℤ → Option ℤ → Option ℤ
count_in none old = old
count_in (some n) old = some n

abbrev count_after : Option GoString → Option ℤ → Option ℤ
count_after none old = old
count_after (some s) old = count_in (atoi (trim_space s)) old

-- the loop over the lines of a jail's status: the last count that is a number
unfoldable pub banned_in : List GoString → Option ℤ → Option ℤ
unfolding trim_space after_colon contains atoi
banned_in [] found = found
banned_in (line ∷ lines) found = banned_in lines (
    if contains (bytes "Currently banned:") line
    then count_after (after_colon line) found
    else found)

abbrev with_count : GoString → Option ℤ → Dict ℤ → Dict ℤ
with_count jail none d = d
with_count jail (some n) d = insert jail n d

module _ (client : List GoString → Option GoString) where
  -- the count of a jail, 0 where the client fails and none where it prints no number
  abbrev count_of : Option GoString → Option ℤ
  count_of none = some (pos 0)
  count_of (some out) = banned_in (split b'\n' out) none

  unfoldable pub count_all : List GoString → Dict ℤ → Dict ℤ
  unfolding banned_in split
  count_all [] d = d
  count_all (jail ∷ rest) d =
      count_all rest (with_count jail (count_of (client (bytes "status" ∷ jail ∷ []))) d)

  abbrev counts_of : Option GoString → Option (Dict ℤ)
  counts_of none = none
  counts_of (some out) = some (count_all (jails (split b'\n' out)) [])

  -- `fail2banBannedCount`
  unfoldable pub fail2ban_banned_count : Option (Dict ℤ)
  unfolding count_all jails split
  fail2ban_banned_count = counts_of (client (bytes "status" ∷ []))

abbrev jail_lines : Dict ℤ → GoString
jail_lines [] = []
jail_lines ((jail, n) ∷ d) =
    bytes "gyds_fail2ban_banned_ips_total{jail="
    ++ (b'"' ∷ [])
    ++ jail
    ++ (b'"' ∷ [])
    ++ bytes "} "
    ++ decimal_int n
    ++ newline
    ++ jail_lines d

abbrev banned_text : Option (Dict ℤ) → GoString
banned_text none = []
banned_text (some d) =
    about (bytes "gyds_fail2ban_banned_ips_total")
      (bytes "Total currently banned IPs across all jails") (bytes "gauge")
    ++ jail_lines d
    ++ newline

module _ {Doc : Type 0} where
  abbrev metrics_text : ℕ → GoString → Option (Dict ℤ) → Server Doc → GoString
  metrics_text chain_id uptime banned s =
      metric (bytes "gyds_block_height") (bytes "Current chain height (latest block number)")
        (bytes "gauge") (decimal (height s.chain))
      ++ metric (bytes "gyds_chain_id") (bytes "Chain ID of this GYDS node") (bytes "gauge")
          (decimal chain_id)
      ++ metric (bytes "gyds_rpc_requests_total")
          (bytes "Total JSON-RPC requests handled since startup") (bytes "counter")
          (decimal_int (to_int64 s.req_total))
      ++ metric (bytes "gyds_ws_connections_active")
          (bytes "Current active WebSocket subscriptions") (bytes "gauge")
          (decimal_int (to_int64 s.ws_active))
      ++ metric (bytes "gyds_pending_transactions")
          (bytes "Transactions currently in the pending pool") (bytes "gauge")
          (decimal (length s.pending_tx))
      ++ metric (bytes "gyds_process_uptime_seconds") (bytes "Seconds since the RPC node started")
          (bytes "counter") uptime
      ++ about (bytes "gyds_node_info") (bytes "Static node metadata") (bytes "gauge")
      ++ bytes "gyds_node_info{mode=\"rpc\",chain_id=\""
      ++ decimal chain_id
      ++ bytes "\",symbol=\"GYDS\"} 1"
      ++ newline
      ++ newline
      ++ banned_text banned

  abbrev metrics_reply :
      Option Stats → GoString → Option (Dict ℤ) → Server Doc → Result Panic GoString
  metrics_reply none uptime banned s = err out_of_range
  metrics_reply (some x) uptime banned s = ok (metrics_text (to_uint64 x.chain_id) uptime banned s)

  -- `handleMetrics`
  unfoldable pub handle_metrics :
      (List GoString → Option GoString) → GoString → Server Doc → Result Panic GoString
  handle_metrics client uptime s =
      metrics_reply (stats s.chain) uptime (fail2ban_banned_count client) s
