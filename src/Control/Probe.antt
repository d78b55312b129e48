-- ===== src/Control/Probe.antt =====
-- The probes of a tunnel's entry (probeTunnelEntry and the functions below it in
-- cmd/tunnel-control/main.go). The messages are texts of Unicode code points, not of UTF-8 bytes.
use cosmo_nps.Base.{
  ◌&&◌, ◌||◌, Option, none, some, List, [], ◌∷◌, ◌++◌, Result, ok, err, if◌then◌else◌, ℤ, pos,
  ltb_ℤ, leb_ℤ,
}
use cosmo_nps.Text.{Text, str, ◌==◌}
use cosmo_nps.Text.Scan.{trim_space, trim_prefix}
use cosmo_nps.Text.Split.{split2}
use cosmo_nps.Text.Decimal.{itoa}
use cosmo_nps.Core.Model.{Tunnel, RuntimeConfig, engine_frp, engine_nps}

-- tunnelAvailabilityProbe
pub record Probe : Type 0 where
  pub state : Text
  pub target : Text
  pub message : Text
  pub status_code : ℤ
  pub latency : ℤ

-- What the packages `net` and `net/http` answer at the time of the check. An error is its text. `dial`
-- and `get` give the milliseconds too; `get` takes the URL and the Host header and gives the status
-- code, and `request` is the error of NewRequest for a URL.
pub record Net : Type 0 where
  pub split_host_port : Text → Option Text
  pub join_host_port : Text → Text → Text
  pub dial : Text → Result Text (Unit {0}) × ℤ
  pub request : Text → Result Text (Unit {0})
  pub get : Text → Text → Result Text ℤ × ℤ
  pub now : Text

abbrev pub simple_probe : Text → Text → Text → Probe
simple_probe state target message = record {
  state = state;
  target = target;
  message = message;
  status_code = pos 0;
  latency = pos 0;
}

-- strings.Index(addr, "/") and the cut there
abbrev pub before_slash : Text → Text
before_slash addr = (split2 b'/' addr).0

abbrev pub host_or : Text → Option Text → Text
host_or addr none = addr
host_or addr (some host) = host

unfoldable pub probe_host : Net → Text → Text
probe_host net server_addr =
    let addr =
      before_slash
        (trim_prefix (trim_prefix (trim_space server_addr) (str "http://")) (str "https://")) in
    let host = host_or addr (net.split_host_port addr) in
    if host == [] then str "127.0.0.1" else host

unfoldable pub http_entry_port : Text → Text → RuntimeConfig → ℤ
http_entry_port engine mode runtime =
    if engine == engine_frp && mode == str "http"
    then runtime.frp_http_port
    else if engine == engine_frp && mode == str "https"
    then runtime.frp_https_port
    else if engine == engine_nps && mode == str "http"
    then runtime.nps_http_proxy_port
    else if engine == engine_nps && mode == str "https"
    then runtime.nps_https_port
    else pos 0

-- the answer to a dial
unfoldable pub dialled : Text → Result Text (Unit {0}) × ℤ → Probe
dialled target (err e, latency) = record (simple_probe (str "down") target e) { latency = latency }
dialled target (ok _, latency) = record (simple_probe (str "ok") target (str "TCP 入口已监听")) {
  latency = latency;
}

unfoldable pub probe_tcp_entry : Net → Text → ℤ → Probe
probe_tcp_entry net host port =
    let target = net.join_host_port host (itoa port) in
    if leb_ℤ port (pos 0)
    then simple_probe (str "down") target (str "远程端口未配置")
    else dialled target (net.dial target)

-- the answer to the request
unfoldable pub answered : Text → Result Text ℤ × ℤ → Probe
answered target (err e, latency) = record (simple_probe (str "down") target e) { latency = latency }
answered target (ok code, latency) =
    if leb_ℤ (pos 500) code
    then record {
      state = str "warning";
      target = target;
      message = str "入口已响应，但上游返回 " ++ itoa code;
      status_code = code;
      latency = latency;
    }
    else record {
      state = str "ok";
      target = target;
      message = str "HTTP 入口已响应";
      status_code = code;
      latency = latency;
    }

abbrev pub first_domain : List Text → Text
first_domain [] = []
first_domain (d ∷ _) = d

-- behind the tests of the domain and the port
unfoldable pub request_entry : Net → Text → Text → Text → Probe
request_entry net target url domain = elim (net.request url) [
  | err e ↦ simple_probe (str "down") target e
  | ok _ ↦ answered target (net.get url domain)
]

unfoldable pub probe_http_entry : Net → Tunnel → RuntimeConfig → Probe
probe_http_entry net t runtime =
    let domain = first_domain t.domains in
    let port = http_entry_port t.engine t.mode runtime in
    let base = t.mode ++ (str "://" ++ domain) in
    let target = if ltb_ℤ (pos 0) port then base ++ (str ":" ++ itoa port) else base in
    let host = net.join_host_port (probe_host net runtime.server_addr) (itoa port) in
    if domain == []
    then simple_probe (str "down") target (str "域名未配置")
    else if leb_ℤ port (pos 0)
    then simple_probe (str "down") target (str "HTTP/HTTPS 入口端口未配置")
    else request_entry net target (t.mode ++ (str "://" ++ (host ++ str "/"))) domain

unfoldable pub probe_tunnel_entry : Net → Tunnel → RuntimeConfig → Probe
probe_tunnel_entry net t runtime =
    let host = probe_host net runtime.server_addr in
    if t.mode == str "tcp" || t.mode == str "socks5"
    then probe_tcp_entry net host t.remote_port
    else if t.mode == str "udp"
    then simple_probe (str "unknown") (net.join_host_port host (itoa t.remote_port) ++ str "/udp")
        (str "UDP 入口无法可靠主动探测，请结合客户端在线和业务流量确认")
    else if t.mode == str "http" || t.mode == str "https"
    then probe_http_entry net t runtime
    else simple_probe (str "unknown") [] (str "未知隧道类型")
