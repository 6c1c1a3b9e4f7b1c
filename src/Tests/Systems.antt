-- ===== src/Tests/Systems.antt =====
-- A network on which everything works, and small libraries for it.
use edge_compute.Base.{
  ℕ, ◌≢◌, refl, true, none, some, List, [], ◌∷◌, ℤ, pos, arith, length, ◌==◌, if◌then◌else◌,
}
use edge_compute.Sys.{Env, addr, sent, not_sent, received, eintr}
use edge_compute.Sys.Returns.{Settles}
use edge_compute.Clib.{Clib}
use edge_compute.PunchHole.Udp.Server.Query.{Serving}

-- The resolver answers with `ips`; every other call succeeds.
abbrev pub working : List ℕ → Env
working ips = record {
  socket = λ h k. pos 3;
  setsockopt = λ h fd o. true;
  bind = λ h fd a. true;
  connect = λ h fd a. none;
  sendto = λ h fd b a. sent (length b);
  recvfrom = λ h fd n. received (7 ∷ []) (addr 9 61620);
  alloc = λ h n. true;
  garbage = λ h. [];
  getaddrinfo = λ h d. some ips;
  extern = λ h f. true;
  bufferevent_write = λ h bev b. true;
  bufferevent_read = λ h bev n. [];
  bufferevent_new = λ h fd. some 1;
  getfd = λ bev. pos 5;
  listener_new = λ h a. some (pos 4);
  send = λ h fd b. true;
  recv = λ h fd n. some [];
  getpid = 0;
  htons = λ p. p;
  inet_addr = λ s. 0;
  atoi = λ s. pos 2222;
  ifconf = λ h. some [];
  ifflags = λ h nic. none;
  ifaddr = λ h nic. none;
}

-- A system whose sends are interrupted, but for those to the address 10.
abbrev pub signalled : Env
signalled = record (working []) {
  sendto = λ h fd b a. if a.sin_addr == 10 then sent (length b) else not_sent eintr;
}

-- A library in which every text is the number 1, with every item.
abbrev pub ones : Clib ℕ
ones = record {
  parse = λ b. some 1;
  get_object_item = λ j name. some j;
  valueint = λ j. pos j;
  valuestring = λ j. [];
  create_object = 0;
  add_number_to_object = λ j name n. j;
  add_string_to_object = λ j name b. j;
  print = λ j. j ∷ [];
  print_unsigned = λ n. n ∷ [];
  strtoul = λ b. 9;
}

sent_not_interrupted : (n : ℕ) → sent n ≢ not_sent eintr
sent_not_interrupted n = λ e. cc

pub working-Settles : (ips : List ℕ) → Settles (working ips) 1
working-Settles ips = record {
  sends_settle = λ fd dst msg h. (0, omega arith, sent_not_interrupted (length msg));
  receives_settle = λ fd size h. (0, omega arith, λ e. cc);
}

pub working-Serving : (ips : List ℕ) (sock : ℤ) → Serving (working ips) sock
working-Serving ips sock = record { alloc = λ h n. refl; sendto = λ h b a. refl }
