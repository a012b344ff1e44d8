-- ===== src/Client/Examples.antt =====
-- The request of a client to a daemon on the host `pc`.
use sockcan.Prelude.{[], ◌∷◌, ◌++◌, ◌≡◌, refl, Text, codes}
use sockcan.Client.{http_delimiter, host_line, request_line, upgrade_request}
use sockcan.Client.Requests.{IsLine, is_line, is_line-IsLine, read_head, upgrade_request-read_head}

abbrev host : Text
host = codes "pc"

host-IsLine : IsLine host
unfolding is_line
host-IsLine = is_line-IsLine host refl

upgrade_request-read_head_example : read_head 6 (upgrade_request host 8000 host) ≡ (
  request_line host ∷ [],
  host_line host 8000
      ++ (http_delimiter
          ++ (codes "Connection: Upgrade"
              ++ (http_delimiter ++ (codes "Upgrade: socketcan" ++ http_delimiter)))),
)
upgrade_request-read_head_example =
    upgrade_request-read_head 4 host 8000 host host-IsLine host-IsLine
