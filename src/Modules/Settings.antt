-- ===== src/Modules/Settings.antt =====
-- The settings that the handlers take from the configuration, in the constructors of
-- `CppHttpHandler_t` and `CppFrpcHandler_t`.
use threadserver.Prelude.{
  ℕ, ◌*◌, Bool, ◌||◌, Option, some, ◌++◌, Bytes, codes, same, Result, ok, ◌>>=◌,
}
use threadserver.Prelude.Int.{ℤ, pos}
use threadserver.Configuration.{Variables, ConfigError, get_default}

-- `boost::lexical_cast` to `time_t`, `size_t` and `int`
pub record Casts : Type 0 where
  pub cast_time : Bytes → Option ℤ
  pub cast_size : Bytes → Option ℕ
  pub cast_int : Bytes → Option ℤ

pub record HttpSettings : Type 0 where
  pub read_timeout : ℤ
  pub write_timeout : ℤ
  pub max_line_size : ℕ
  pub max_request_size : ℤ

pub record FrpcSettings : Type 0 where
  pub read_timeout : ℤ
  pub write_timeout : ℤ
  pub keep_alive : Bool
  pub max_keep_alive : ℤ
  pub introspection_enabled : Bool
  pub help_directory : Bytes

-- `getBool` of cppfrpchandler.cc
unfoldable pub is_on : Bytes → Bool
is_on s = same s (codes "1") || same s (codes "true") || same s (codes "on")

module _ (casts : Casts) (name : Bytes) (vars : Variables) where
  open casts use {cast_time, cast_size, cast_int}

  -- `maxRequestSize` is read as an `int` and kept in a `size_t`; the `int` is what is kept here.
  unfoldable pub http_settings : Result ConfigError HttpSettings
  http_settings = do
    read ← get_default cast_time (name ++ codes ".ReadTimeout") (pos 10000) vars
    write ← get_default cast_time (name ++ codes ".WriteTimeout") (pos 10000) vars
    line ← get_default cast_size (name ++ codes ".MaxLineSize") 1024 vars
    request ← get_default cast_int (name ++ codes ".MaxRequestSize") (pos (1024 * 1024)) vars
    ok (record {
      read_timeout = read;
      write_timeout = write;
      max_line_size = line;
      max_request_size = request;
    })

  unfoldable pub frpc_settings : Result ConfigError FrpcSettings
  unfolding is_on
  frpc_settings = do
    read ← get_default cast_time (name ++ codes ".ReadTimeout") (pos 10000) vars
    write ← get_default cast_time (name ++ codes ".WriteTimeout") (pos 10000) vars
    keep_alive ← get_default some (name ++ codes ".KeepAlive") (codes "true") vars
    max_keep_alive ← get_default cast_time (name ++ codes ".MaxKeepAlive") (pos 100) vars
    introspection ← get_default some (name ++ codes ".IntrospectionEnabled") (codes "true") vars
    help_directory ← get_default some (name ++ codes ".HelpDirectory") (codes "") vars
    ok (record {
      read_timeout = read;
      write_timeout = write;
      keep_alive = is_on keep_alive;
      max_keep_alive = max_keep_alive;
      introspection_enabled = is_on introspection;
      help_directory = help_directory;
    })
