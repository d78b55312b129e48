-- ===== src/Core/Frp.antt =====
-- The configuration of an frp client and the export of the frp users (internal/core/adapters.go). Go's
-- quoted form of a string (%q) and the JSON text of the users are parameters.
use cosmo_nps.Base.{
  Bool, not, ◌||◌, List, [], ◌∷◌, ◌++◌, Result, ok, err, ◌>>=◌, if◌then◌else◌, ℤ, pos, ltb_ℤ, map,
}
use cosmo_nps.Text.{Text, str, ◌==◌}
use cosmo_nps.Text.Decimal.{itoa}
use cosmo_nps.Text.Order.{sort_by}
use cosmo_nps.Core.Port.{PortRange}
use cosmo_nps.Core.Model.{User, Tunnel, RuntimeConfig, engine_frp, with_defaults}

-- the errors, with the user or the mode and the id of the tunnel
pub data FrpcError : Type 0 where
  no_frp_token : Text → FrpcError
  needs_domains : Text → Text → FrpcError
  needs_port : Text → Text → FrpcError

-- an assignment, up to the end of its line
abbrev pub assign : Text → Text → Text
assign key value = key ++ (str " = " ++ (value ++ str "\n"))

module _ (quote : Text → Text) where
  -- strings.Join(quoted, ", ")
  unfoldable pub quote_list : List Text → Text
  quote_list [] = []
  quote_list (v ∷ []) = quote v
  quote_list (v ∷ w ∷ vs) = quote v ++ (str ", " ++ quote_list (w ∷ vs))

  domains_line : Tunnel → List Text → Result FrpcError Text
  unfolding quote_list
  domains_line t [] = err (needs_domains t.mode t.id)
  domains_line t (d ∷ ds) =
      ok (assign (str "customDomains") (str "[" ++ (quote_list (d ∷ ds) ++ str "]")))

  -- the line of a proxy that says where it listens
  unfoldable pub entry_line : Tunnel → Result FrpcError Text
  unfolding domains_line
  entry_line t =
      if t.mode == str "http" || t.mode == str "https"
      then domains_line t t.domains
      else if ltb_ℤ (pos 0) t.remote_port
      then ok (assign (str "remotePort") (itoa t.remote_port))
      else err (needs_port t.mode t.id)

  unfoldable pub local_lines : Tunnel → Text
  local_lines t =
      (if t.local_ip == [] then [] else assign (str "localIP") (quote t.local_ip))
      ++ (if ltb_ℤ (pos 0) t.local_port then assign (str "localPort") (itoa t.local_port) else [])

  unfoldable pub proxy_lines : Tunnel → Result FrpcError Text
  proxy_lines t = do
    entry ← entry_line t
    ok (
        str "\n[[proxies]]\n"
        ++ (assign (str "name") (quote t.id)
            ++ (assign (str "type") (quote t.mode) ++ (entry ++ local_lines t))))

  unfoldable pub proxies : List Tunnel → Result FrpcError Text
  proxies [] = ok []
  proxies (t ∷ ts) =
      let rest = proxies ts in
      if not (t.engine == engine_frp) || not t.enabled
      then rest
      else do lines ← proxy_lines t; more ← rest; ok (lines ++ more)

  unfoldable pub frpc_head : User → RuntimeConfig → Text
  frpc_head u cfg =
      assign (str "user") (quote u.name)
      ++ (assign (str "serverAddr") (quote cfg.server_addr)
          ++ (assign (str "serverPort") (itoa cfg.frp_server_port)
              ++ (str "loginFailExit = true\n\n[auth]\n"
                  ++ (assign (str "method") (quote (str "token"))
                      ++ assign (str "token") (quote u.frp_token)))))

  unfoldable pub render_frpc : User → List Tunnel → RuntimeConfig → Result FrpcError Text
  render_frpc u tunnels given =
      if u.frp_token == []
      then err (no_frp_token u.name)
      else do rest ← proxies tunnels; ok (frpc_head u (with_defaults given) ++ rest)

-- frpUser
pub record FrpUserEntry : Type 0 where
  pub name : Text
  pub password : Text
  pub token : Text
  pub role : Text
  pub enabled : Bool
  pub allow_ports : List PortRange
  pub domains : List Text
  pub max_ports : ℤ

unfoldable pub frp_user_entry : User → FrpUserEntry
frp_user_entry u = record {
  name = u.name;
  password = u.password;
  token = u.frp_token;
  role = u.role;
  enabled = u.enabled;
  allow_ports = u.port_pools;
  domains = u.domain_pools;
  max_ports = u.max_ports;
}

unfoldable pub export_frp_users : (List FrpUserEntry → Text) → List User → Text
export_frp_users marshal users =
    marshal (sort_by (λ (e : FrpUserEntry). e.name) (map frp_user_entry users))
