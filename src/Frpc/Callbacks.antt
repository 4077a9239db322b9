-- ===== src/Frpc/Callbacks.antt =====
-- `CppFrpcHandler_t::Callbacks_t` of src/handlers/cppfrpchandler/cppfrpchandler.cc: the lines that are
-- logged around a call of a method. `dump` is `dumpFastrpcTree` of the FRPC library.
use threadserver.Prelude.{◌∷◌, ◌++◌, Bytes, codes}
use threadserver.Prelude.Int.{ℤ}
use threadserver.Errors.{c_str}
use threadserver.Http.Worker.{show_int}

pub data Level : Type 0 where
  info2 warn1 : Level

pub record Line : Type 0 where
  pub level : Level
  pub text : Bytes

-- `FRPC::MethodRegistry_t::TimeDiff_t`
pub record TimeDiff : Type 0 where
  pub second : ℤ
  pub usecond : ℤ

-- What `FRPC::Fault_t` gives by `errorNum` and `message`
pub record RpcFault : Type 0 where
  pub error_num : ℤ
  pub message : Bytes

module _ {Value : Type 0} (dump : Value → Bytes) where
  unfoldable pub pre_process : (method_name client_ip : Bytes) → Value → Line
  pre_process method_name client_ip params = record {
    level = info2;
    text =
        codes "Calling method "
        ++ (c_str method_name
            ++ (b'(' ∷ (c_str (dump params) ++ (codes ") from IP: " ++ c_str client_ip))));
  }

  -- `postProcess` with a result
  unfoldable pub post_process : (method_name : Bytes) → Value → TimeDiff → Line
  post_process method_name result time = record {
    level = info2;
    text =
        codes "Method: "
        ++ (c_str method_name
            ++ (codes " returned "
                ++ (c_str (dump result)
                    ++ (codes " after "
                        ++ (show_int time.second
                            ++ (codes " seconds and "
                                ++ (show_int time.usecond ++ codes " microseconds")))))));
  }

-- `postProcess` with a fault
unfoldable pub post_process_fault : (method_name : Bytes) → RpcFault → TimeDiff → Line
post_process_fault method_name fault time = record {
  level = warn1;
  text =
      codes "Method: "
      ++ (c_str method_name
          ++ (codes " returned fault ("
              ++ (show_int fault.error_num
                  ++ (b' '
                      ∷ (c_str fault.message
                          ++ (codes ") after "
                              ++ (show_int time.second
                                  ++ (codes " secondes and "
                                      ++ (show_int time.usecond ++ codes " microseconds")))))))));
}
