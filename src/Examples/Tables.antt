-- ===== src/Examples/Tables.antt =====
-- The tables and the lists of requests at concrete inputs.
use boa.Common.{
  if◌then◌else◌, ℕ, ◌+◌, ◌≡◌, refl, true, false, Option, none, some, [], ◌∷◌, ◌++◌, arith, ◌==◌,
  length, set, replicate, Bytes, codes, str_eq,
}
use boa.MmapCache.{
  stat_entry, Stat, MmapTable, empty_entry, find_mmap, count_live, IsTable, probe, use_probed,
  add_entry,
}
use boa.MmapCache.Counts.{Found, find_mmap-Found}
use boa.Hash.{HashTable, mime_hashtable_size, add_mime_type}
use boa.Hash.Laws.{mime_lookup, or_else, add_mime_type-lookup}
use boa.Status.{pipe_read}
use boa.Queue.{Links, Waiting, Queues, wait_of, block_request, is}
use boa.Queue.Chain.{first, Fresh, Distinct, Linked}
use boa.Queue.Moves.{Apart}
use boa.Queue.Requests.{IsQueues, is_set, block_request-IsQueues}

abbrev empty_table : MmapTable
empty_table = record {
  mmap_list = replicate 256 empty_entry;
  entries_used = 0;
  total_requests = 0;
  hash_bounces = 0;
}

empty_table-IsTable : IsTable empty_table
unfolding count_live
empty_table-IsTable = record { size = refl; used = refl; limit = ground arith }

abbrev page : Stat
page = record { st_dev = 1; st_ino = 2; st_size = 100 }

find_mmap-Found_example :
    (t' : MmapTable) × (r : Option ℕ) × (find_mmap empty_table page (some 4096) ≡ some (t', r))
    × IsTable t'
    × Found empty_table.mmap_list page t'.mmap_list r
find_mmap-Found_example = find_mmap-Found empty_table page (some 4096) empty_table-IsTable

abbrev no_types : HashTable
no_types = replicate 47 []

add_mime_type-lookup_example :
    (table' : HashTable) × (add_mime_type true no_types (codes "html") (codes "text/html")
      ≡ some table')
    × (length table' ≡ mime_hashtable_size)
    × (mime_lookup table' (codes "html") ≡ (
        if str_eq (codes "html") (codes "html")
        then or_else (mime_lookup no_types (codes "html")) (codes "text/html")
        else mime_lookup no_types (codes "html")))
add_mime_type-lookup_example =
    add_mime_type-lookup no_types (codes "html") (codes "text/html") (codes "html") refl (λ e. cc)
      (λ e. cc) (λ e. cc)

-- A user database with one user.
abbrev one_user : Bytes → Option Bytes
one_user name = if str_eq name (codes "jn") then some (codes "/home/jn") else none

known_user : one_user (codes "jn") ≡ some (codes "/home/jn")
unfolding str_eq
known_user = refl

-- The requests 1, 2 and 3 are ready, in this order, and 4 is blocked.
abbrev links : Links
links = record {
  next = λ q. if q == 1 then some 2 else if q == 2 then some 3 else none;
  prev = λ q. if q == 2 then some 1 else if q == 3 then some 2 else none;
}

abbrev queues : Queues
queues = record {
  links = links;
  request_ready = some 1;
  request_block = some 4;
  sets = record { reads = λ fd. false; writes = λ fd. false; max_fd = 0 };
}

abbrev waiting : ℕ → Waiting
waiting q = record {
  status = pipe_read;
  buffer_start = 0;
  buffer_end = 0;
  fd = 10 + q;
  data_fd = 20 + q;
  post_data_fd = 0;
}

queues-IsQueues : IsQueues queues (1 ∷ [] ++ 2 ∷ 3 ∷ []) (4 ∷ [])
unfolding first Fresh Distinct Linked Apart is
queues-IsQueues = record {
  queue_a = record {
    head_first = refl;
    linked = (refl, refl, (refl, refl, (refl, refl, tt)));
    distinct = ((refl, (refl, tt)), ((refl, tt), (tt, tt)));
  };
  queue_b = record { head_first = refl; linked = (refl, refl, tt); distinct = (tt, tt) };
  apart = ((refl, tt), ((refl, tt), ((refl, tt), tt)));
}

block_request-IsQueues_example :
    IsQueues (block_request true waiting queues 2) (1 ∷ [] ++ 3 ∷ []) (2 ∷ 4 ∷ [])
    × (is_set (block_request true waiting queues 2).sets (wait_of true (waiting 2)) ≡ true)
block_request-IsQueues_example =
    block_request-IsQueues true waiting queues (1 ∷ []) 2 (3 ∷ []) (4 ∷ []) queues-IsQueues

not_waiting : is_set queues.sets (wait_of true (waiting 2)) ≡ false
unfolding is_set wait_of
not_waiting = refl

-- The table behind the first request for the page.
abbrev page_table : MmapTable
page_table = record {
  mmap_list = set empty_table.mmap_list 2 (stat_entry page 4096);
  entries_used = 1;
  total_requests = 1;
  hash_bounces = 0;
}

page_found : find_mmap empty_table page (some 4096) ≡ some (page_table, some 2)
unfolding find_mmap probe use_probed add_entry
page_found = refl
