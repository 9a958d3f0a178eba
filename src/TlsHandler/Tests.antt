-- ===== src/TlsHandler/Tests.antt =====
-- A TLS connection that is passed through.
use lazyfwd.Base.{some, none, codes, ok}
use lazyfwd.Manager.Sample.{connect, running_one}
use lazyfwd.Handle.Sample.{fair, running_one-IsSound}
use lazyfwd.Sni.Hello.{encode_record}
use lazyfwd.Sni.Sample.{hello_for}
use lazyfwd.TlsHandler.{Sockets, handle_tls_connection}
use lazyfwd.TlsHandler.Laws.{Passed, handle_tls_connection-Passed}

-- The backend does not answer.
abbrev refused : Sockets
refused = record {
  first_read = ok (encode_record (hello_for (codes "nginx")));
  dial = some (codes "refused");
  written = none;
}

handle_tls_connection-Passed_example :
    Passed refused (handle_tls_connection connect fair refused running_one)
handle_tls_connection-Passed_example =
    handle_tls_connection-Passed connect fair refused running_one running_one-IsSound
