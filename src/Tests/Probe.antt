-- ===== src/Tests/Probe.antt =====
-- NatProbe's theorems at concrete servers, tables and runs.
use edge_compute.Base.{
  ℕ, zero, suc, ◌+◌, ◌*◌, ◌<◌, ◌≤◌, ◌≡◌, refl, some, List, [], ◌∷◌, ℤ, pos, minus_one, arith,
  get_or, replicate, get_elem?,
}
use edge_compute.Sys.{History, ok, out_of_bounds, resolves}
use edge_compute.Sys.Returns.{Returns}
use edge_compute.NatProbe.Types.{np_domain, np_server_port}
use edge_compute.NatProbe.Dns.{Resolved, np_get_server_ip, Answered, np_get_server_ip-Answered}
use edge_compute.NatProbe.Server.{
  NpAddr, NpServer, zero_server, create_socket, process_full_cone_nat, process_restricted_cone_nat,
}
use edge_compute.NatProbe.Server.Layout.{
  Laid, first_sock, second_sock, create_socket-Laid, create_socket-out,
}
use edge_compute.NatProbe.Server.Reply.{
  DistinctTo, process_full_cone_nat-next, process_restricted_cone_nat-same,
}
use edge_compute.NatProbe.Client.{NpClient, zero_client}
use edge_compute.NatProbe.Client.Probe.{Tests}
use edge_compute.Tests.Systems.{working, ones}

abbrev two_ips : List ℕ
two_ips = 11 ∷ 22 ∷ []

abbrev client : NpClient
client = record (zero_client 0) { sock = pos 3; ip_addr = 11 ∷ 22 ∷ replicate 8 0; ip_addr_num = 2 }

create_socket-Laid_example :
    (code : ℤ) × (s' : NpServer) × (h' : History) × (create_socket ones
        (working two_ips)
        zero_server
        []
      ≡ ok (code, s') h')
    × Laid 2 (11 ∷ 22 ∷ 0 ∷ 0 ∷ 0 ∷ 0 ∷ 0 ∷ 0 ∷ 0 ∷ 0 ∷ []) s'.table
create_socket-Laid_example =
    create_socket-Laid ones (working two_ips) zero_server two_ips [] refl (omega arith)
      (omega arith) refl

abbrev six_ips : List ℕ
six_ips = 1 ∷ 2 ∷ 3 ∷ 4 ∷ 5 ∷ 6 ∷ []

create_socket-out_example :
    create_socket ones (working six_ips) zero_server []
    ≡ out_of_bounds (resolves (some six_ips) ∷ [])
create_socket-out_example =
    create_socket-out ones (working six_ips) zero_server six_ips [] refl (omega arith) refl

np_get_server_ip-Answered_example :
    (r : Resolved) × (np_get_server_ip (working two_ips) np_domain (0 ∷ 0 ∷ 0 ∷ []) 3 0 []
      ≡ ok r (resolves (some two_ips) ∷ []))
    × Answered two_ips (0 ∷ 0 ∷ 0 ∷ []) r
np_get_server_ip-Answered_example =
    np_get_server_ip-Answered (working two_ips) np_domain (0 ∷ 0 ∷ 0 ∷ []) two_ips 0 []
      (omega arith) refl

-- A server for two addresses, with descriptors 3 to 6.
abbrev at : ℕ → ℕ → ℤ → NpAddr
at ip port sock = record { ip = ip; port = port; sock = sock }

abbrev server : NpServer
server = record zero_server {
  table =
      at 11 61620 (pos 3)
      ∷ at 11 61621 (pos 4)
      ∷ at 22 61620 (pos 5)
      ∷ at 22 61621 (pos 6)
      ∷ at 0 61620 minus_one
      ∷ at 0 61621 minus_one
      ∷ at 0 61620 minus_one
      ∷ at 0 61621 minus_one
      ∷ replicate 12 (at 0 0 (pos 0));
}

server_first :
    (k : ℕ)
    → k < 4
    → get_elem? server.table (2 * k)
      ≡ some (record {
        ip = get_or two_ips k 0;
        port = np_server_port;
        sock = first_sock server.table k;
      })
server_first zero small = refl
server_first (suc zero) small = refl
server_first (suc (suc zero)) small = refl
server_first (suc (suc (suc zero))) small = refl
server_first (suc (suc (suc (suc k)))) small = absurd (omega arith)

server_second :
    (k : ℕ)
    → k < 4
    → get_elem? server.table (2 * k + 1)
      ≡ some (record {
        ip = get_or two_ips k 0;
        port = np_server_port + 1;
        sock = second_sock server.table k;
      })
server_second zero small = refl
server_second (suc zero) small = refl
server_second (suc (suc zero)) small = refl
server_second (suc (suc (suc zero))) small = refl
server_second (suc (suc (suc (suc k)))) small = absurd (omega arith)

server_spare :
    (k : ℕ)
    → 2 ≤ k
    → k < 4
    → (first_sock server.table k ≡ minus_one) × (second_sock server.table k ≡ minus_one)
server_spare zero far small = absurd (omega arith)
server_spare (suc zero) far small = absurd (omega arith)
server_spare (suc (suc zero)) far small = (refl, refl)
server_spare (suc (suc (suc zero))) far small = (refl, refl)
server_spare (suc (suc (suc (suc k)))) far small = absurd (omega arith)

server-Laid : Laid 2 two_ips server.table
server-Laid = record {
  size = refl;
  first = server_first;
  second = server_second;
  spare = server_spare;
}

server-DistinctTo : DistinctTo server.table 0
server-DistinctTo j small = absurd (omega arith)

process_full_cone_nat-next_example : process_full_cone_nat (pos 3) server [] ≡ ok (pos 6) []
process_full_cone_nat-next_example =
    process_full_cone_nat-next server server-Laid 0 (omega arith) (omega arith) server-DistinctTo []

process_restricted_cone_nat-same_example :
    process_restricted_cone_nat (pos 3) server [] ≡ ok (pos 4) []
process_restricted_cone_nat-same_example =
    process_restricted_cone_nat-same server server-Laid 0 (omega arith) (omega arith)
      server-DistinctTo []
