-- ===== src/Lib.antt =====
-- Verification of parts of the Lenovo A6020 device tree: the lights HAL, and of the GPS library the
-- concurrent core, the state machines of its sessions and the reading of its configuration files.
--
-- The parts, and the modules that model them:
--
--   gps/utils/linked_list.c: LinkedList. A list is two pointers into a heap of elements that are
--     linked both ways (LinkedList.Memory); linked_list_init, _destroy, _add, _remove, _empty, _flush
--     and _search are init, destroy, add, remove, empty, flush and search of LinkedList.Ops. A NULL or
--     dangling pointer is a fault. Callbacks act on a state `S` outside the heap; a callback that
--     calls back into the same list is not modelled.
--   gps/utils/LocHeap.cpp: LocHeap. A tree is a value (LocHeap.Node); LocHeap::push, ::pop, ::peek and
--     ::remove are push, pop, peek and remove there. The ranking of the objects is a parameter, which
--     the theorems about order take to be a strict weak order.
--   gps/loc_api/libloc_api_50001/loc_eng_agps.cpp: Agps. Agps.Subscribers has the four classes of
--     subscribers, Agps.Machine what AgpsStateMachine and DSStateMachine do to their list, and
--     Agps.States the four states and the operations subscribeRsrc, unsubscribeRsrc and onRsrcEvent. The
--     list is that of linked_list.c, whose search LinkedList.Search shows to be the plain one. The
--     answers of the servicer and of the timer are parameters.
--   gps/loc_api/libloc_api_50001/loc_eng_ni.cpp: Ni. loc_eng_ni_init, _request_handler, _respond and
--     _reset_on_engine_restart are init, request_handler, respond and reset_on_engine_restart of
--     Ni.Requests; the last only begins, and takes its steps one at a time (reset_step, run_reset),
--     since it works outside the lock. The other calls are one step. Between these any helper thread
--     takes a step of ni_thread_proc (Ni.Thread): up to its wait, from there to the unlock, or to its
--     end. Whether a wait runs out, and whether pthread_create succeeds, are arguments.
--   gps/utils/loc_cfg.cpp: Cfg. Cfg.Text has the functions of the C library that the code calls, and
--     loc_util_trim_space of gps/utils/loc_misc_utils.cpp; Cfg.Table has loc_set_config_entry and
--     loc_fill_conf_item (Cfg.Settings says what a line sets), and Cfg.Config loc_read_conf_r,
--     loc_update_conf and loc_read_conf. The variables that a table points to are in its entries. long
--     has 64 bits, and int 32.
--   gps/utils/msg_q.c: MsgQ, on top of LinkedList. msg_q_snd, _rcv, _flush and _unblock are snd, rcv,
--     flush and unblock of MsgQ.Ops, msg_q_init, _init2 and _destroy those of MsgQ.Init. The mutex
--     makes a function one step; at a wait of msg_q_rcv other threads run any operations, which are
--     an argument. malloc is a parameter, which returns NULL or memory that is not in use.
--   gps/loc_api/loc_api_v02/loc_api_sync_req.c: SyncReq. loc_sync_req_init, _process_ind,
--     loc_alloc_slot, loc_free_slot and loc_sync_select_ind are in SyncReq.Ops,
--     loc_sync_wait_for_ind and loc_sync_send_req in SyncReq.Calls. What other threads do between the
--     steps of a request, the result of locClientSendReq and whether the wait times out are arguments.
--     locClientGetSizeByRespIndId (loc_api_v02_client.c) looks its table up, which is a parameter.
--   liblight/lights.c: Lights. Lights.Files has write_int and the files of /sys/class/leds,
--     Lights.Device the five set_light functions, Lights.Open open_lights and close_lights.
--   gps/loc_api/libloc_api_50001/loc_eng_dmn_conn_glue_msg.c, loc_eng_dmn_conn_glue_pipe.c: DmnConn.
--     loc_eng_dmn_conn_glue_msgsnd, _msgrcv and _msgflush are msgsnd, msgrcv and msgflush of
--     DmnConn.Messages, on the bytes of a message, whose first field is a size_t of 8 bytes. The
--     system calls read and write are a parameter (DmnConn.Kernel) with the laws of a pipe. Opening
--     and removing a pipe is in DmnConn.Pipe.
--   gps/loc_api/libloc_api_50001/loc_eng_dmn_conn_thread_helper.c: DmnConn.Thread. thelper_main runs
--     a statement at a time (step), and turns say who runs next: the helper, or a thread that calls
--     loc_eng_dmn_conn_unblock_thelper.
--   gps/loc_api/loc_api_v02/loc_api_v02_client.c: LocClient. The callback data of a client is on a heap
--     (LocClient.State), where a handle that is not NULL is followed, and a dangling one is a fault.
--     locClientSendReq and locClientRegisterEventMask are in LocClient.Requests, locClientOpenInstance,
--     locClientOpen and locClientClose in LocClient.Open, locClientIndCb and locClientErrorCb in
--     LocClient.Indications, locClientSupportMsgCheck in LocClient.Supported. The answers of the QMI
--     framework are arguments. The tables of events, responses and requests are in LocClient.Tables,
--     where a row of the responses names its struct; the sizes of the generated structs are a
--     parameter, and the definitions that look a table up take any table. The wait of
--     locClientQmiCtrlPointInit for the service is a list of lookups (await_lookup), which runs out of
--     fuel where none of them finds it.
--   gps/loc_api/ds_api/ds_client.c: DsClient. ds_client_qmi_ctrl_point_init is in DsClient.Service, the
--     requests for profiles and the search for one in DsClient.Profiles, and ds_client_open_call,
--     _start_call, _stop_call and _close_call in DsClient.Call. What QMI, the data layer and the
--     allocator answer is a parameter.
--
-- Loops run on fuel where the code follows pointers. The loops of linked_list.c need one unit for each
-- item and one more, and each theorem about them asks for just that many; msgflush needs one for each
-- read, and at most one more than the pipe holds bytes. notifySubscribers has one unit for each
-- subscriber and one more, and the loops of loc_cfg.cpp one unit more than there are bytes to read.
-- locClientOpen makes 20 retries, as the code.
--
-- Log output is not modelled, nor is the time of day but as an argument of ni_thread_proc. The
-- camera library under libshims, the QMI messages and the other C++ parts of the GPS library are not
-- modelled.
mod Base
pub mod LinkedList
pub mod LocHeap
pub mod Agps
pub mod Ni
pub mod Cfg
pub mod MsgQ
pub mod SyncReq
pub mod Lights
pub mod DmnConn
pub mod LocClient
pub mod DsClient
mod Tests
