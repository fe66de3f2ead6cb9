-- ===== src/Shim/Options/Tests.antt =====
-- Options set and read at concrete values.
use ax88179_aroma_driver.Base.{arith, ◌≡◌, refl, true, false, none, ◌==◌, pos}
use ax88179_aroma_driver.Shim.Sockets.{held, fresh_compat, Shim}
use ax88179_aroma_driver.Shim.Options.{int, with_int, level_of, socket_option}
use ax88179_aroma_driver.Shim.Options.Set.{setsockopt, set_at, set_socket, set_sndbuf}
use ax88179_aroma_driver.Shim.Options.Kept.{
  nsn_so_sndbuf, set_kept, get_kept, getsockopt-setsockopt,
}

abbrev shim : Shim
shim = record {
  open_mask = λ fd. fd == 3;
  mapped_fd = λ fd. none;
  accepting_sockets = true;
  force_native = false;
  stack_ready = true;
  compat_sock = λ fd. fresh_compat;
  ftp_restart_mask = λ fd. false;
  ftp_native_bind_ip = 0;
  ftp_ax_redirect_active = false;
  nssl_public_mask = λ fd. false;
  nssl_connection_by_fd = λ fd. pos 0;
  ax_activity_pending = 0;
  native = λ fd. true;
  lwip = λ x. x == 0;
  fate = λ fd. held;
  options = λ x. record { rcvbuf = none; sndbuf = none; broadcast = none };
}

sndbuf_is_set :
    (set_kept
      (λ c. pos 0)
      (λ c. pos 0)
      (λ c. pos 0)
      false
      0
      (λ e. e)
      (pos 0)
      nsn_so_sndbuf
      3
      (pos 4096)
      (pos 0)
      4
      shim).result
    ≡ pos 0
unfolding setsockopt set_at set_socket set_sndbuf with_int level_of socket_option
sndbuf_is_set = refl

getsockopt-setsockopt_example :
    get_kept
      (λ c. pos 0)
      (λ c. pos 0)
      (λ c. pos 0)
      false
      0
      (λ e. e)
      (pos 0)
      nsn_so_sndbuf
      3
      8
      (set_kept
        (λ c. pos 0)
        (λ c. pos 0)
        (λ c. pos 0)
        false
        0
        (λ e. e)
        (pos 0)
        nsn_so_sndbuf
        3
        (pos 4096)
        (pos 0)
        4
        shim).shim
    ≡ int (pos 4096)
getsockopt-setsockopt_example =
    getsockopt-setsockopt (λ c. pos 0) (λ c. pos 0) (λ c. pos 0) false 0 (λ e. e) (pos 0)
      nsn_so_sndbuf nsn_so_sndbuf 3 3 4 8 (pos 4096) (pos 0) shim refl refl (omega arith)
      sndbuf_is_set
