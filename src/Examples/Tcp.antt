-- ===== src/Examples/Tcp.antt =====
-- src/transport/tcp.rs at concrete endpoints.
use rsadb.Base.{◌≡◌, refl, ascii, arith}
use rsadb.Error.{ok}
use rsadb.Transport.Tcp.{parse_endpoint}
use rsadb.Text.Count.{count}
use rsadb.Transport.Tcp.Endpoint.{
  print_endpoint, parse_endpoint-print_endpoint, parse_endpoint-no_port,
}

parse_endpoint-print_endpoint_example :
    parse_endpoint (print_endpoint (ascii "::1") 7) ≡ ok (ascii "::1", 7)
parse_endpoint-print_endpoint_example =
    parse_endpoint-print_endpoint (ascii "::1") 7 (λ e. omega (arith, e))
      ((omega arith, refl), ((omega arith, refl), ((omega arith, refl), tt)))
      ((λ e. omega (arith, e)), ((λ e. omega (arith, e)), ((λ e. omega (arith, e)), tt)))
      (omega arith)

parse_endpoint-no_port_example :
    (parse_endpoint (ascii "::1") ≡ ok (ascii "::1", 5555))
    × (parse_endpoint (ascii "[::1]") ≡ ok (ascii "::1", 5555))
unfolding count
parse_endpoint-no_port_example =
    parse_endpoint-no_port (ascii "::1") (λ e. cc) (λ e. omega (arith, e))
      ((omega arith, refl), ((omega arith, refl), ((omega arith, refl), tt)))
      ((λ e. omega (arith, e)), ((λ e. omega (arith, e)), ((λ e. omega (arith, e)), tt)))
      (λ e. omega (arith, e))
