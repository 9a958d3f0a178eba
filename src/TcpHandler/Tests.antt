-- ===== src/TcpHandler/Tests.antt =====
-- A connection to a port with a route.
use lazyfwd.Base.{none}
use lazyfwd.Base.Int.{pos}
use lazyfwd.Manager.Sample.{connect, running_one}
use lazyfwd.Handle.Sample.{fair, running_one-IsSound}
use lazyfwd.TcpHandler.{handle_connection}
use lazyfwd.TcpHandler.Laws.{Piped, handle_connection-Piped}

handle_connection-Piped_example :
    Piped (pos 5433) (handle_connection connect fair none (pos 5433) running_one)
handle_connection-Piped_example =
    handle_connection-Piped connect fair none (pos 5433) running_one running_one-IsSound
