-- ===== src/Examples/Loops.antt =====
-- The main loop at a concrete input.
use boa.Common.{ℕ, ◌≡◌, refl, true, false, none, some, List, [], ◌∷◌, arith}
use boa.Status.{done, ka_stopped, Retval, more}
use boa.Buffer.{would_block}
use boa.Queue.Chain.{Fresh, Distinct, Linked, first}
use boa.Queue.Moves.{Apart}
use boa.Loop.{Active, Server, Config, connected}
use boa.Loop.Account.{occurs}
use boa.Loop.Invariant.{IsServer}
use boa.Loop.Rounds.{Inputs, process_requests}
use boa.Loop.Select.{fdset_update}
use boa.Loop.Woken.{EndsWoken, fdset_update-Woken}
use boa.Examples.Sends.{server}
use boa.Loop.Kept.{process_requests-IsServer}

-- One request that is done.
abbrev one_done : Server
one_done = record {
  queues = record {
    links = record { next = λ n. none; prev = λ n. none };
    request_ready = some 0;
    request_block = none;
    sets = record { reads = λ n. false; writes = λ n. false; max_fd = 0 };
  };
  request_free = none;
  request = λ n. record {
    out = record { status = done; buffer_start = 0; content = [] };
    keepalive = ka_stopped;
    kacount = 5;
    response_status = 200;
    has_logline = true;
    stream = [];
    parse_pos = 0;
    time_last = 7;
    fd = 4;
    data_fd = 0;
    post_data_fd = 0;
  };
  next_number = 1;
  pending_requests = true;
  total_connections = 1;
  requests = 1;
  errors = 0;
}

abbrev config : Config
config = record { ka_max = 5; max_connections = 100; have_sendfile = false; response = server }

abbrev round : Inputs
round = record {
  now = 9;
  first_write = would_block;
  done_write = would_block;
  last_write = would_block;
  sigterm_flag = false;
  memory = true;
  accepted = connected 6 would_block;
}

one_done-IsServer : IsServer one_done (0 ∷ []) [] []
unfolding first Linked Distinct Fresh Apart occurs
one_done-IsServer = record {
  lists = record {
    lists = record {
      queue_a = record { head_first = refl; linked = (refl, refl, tt); distinct = (tt, tt) };
      queue_b = record { head_first = refl; linked = tt; distinct = tt };
      queue_c = record { head_first = refl; linked = tt; distinct = tt };
      apart_ab = (tt, tt);
      apart_ac = (tt, tt);
      apart_bc = tt;
    };
    accounted = λ x. ground arith;
  };
  counted = refl;
}

abbrev no_handler : Active → Active × Retval
no_handler a = (a, more)

process_requests-IsServer_example :
    ((process_requests config no_handler round (round ∷ round ∷ []) one_done).1 ≡ none)
    × (readys : List ℕ) × (blocks : List ℕ) × (frees : List ℕ) × IsServer
        (process_requests config no_handler round (round ∷ round ∷ []) one_done).0
        readys
        blocks
        frees
process_requests-IsServer_example =
    process_requests-IsServer config no_handler round (round ∷ round ∷ []) one_done (0 ∷ []) [] []
      one_done-IsServer (omega arith)

-- The same request, blocked since the time 7.
abbrev one_blocked : Server
one_blocked = record one_done {
  queues = record one_done.queues { request_ready = none; request_block = some 0 };
}

one_blocked-IsServer : IsServer one_blocked [] (0 ∷ []) []
unfolding first Linked Distinct Fresh Apart occurs
one_blocked-IsServer = record {
  lists = record {
    lists = record {
      queue_a = record { head_first = refl; linked = tt; distinct = tt };
      queue_b = record { head_first = refl; linked = (refl, refl, tt); distinct = (tt, tt) };
      queue_c = record { head_first = refl; linked = tt; distinct = tt };
      apart_ab = tt;
      apart_ac = tt;
      apart_bc = (tt, tt);
    };
    accounted = λ x. ground arith;
  };
  counted = refl;
}

fdset_update-Woken_example :
    EndsWoken config 10 100 one_blocked [] (0 ∷ []) [] (fdset_update config 10 100 1 one_blocked)
fdset_update-Woken_example =
    fdset_update-Woken config 10 100 1 one_blocked [] (0 ∷ []) [] one_blocked-IsServer (omega arith)
