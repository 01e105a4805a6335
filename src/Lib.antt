-- ===== src/Lib.antt =====
-- The firmware of an ESP32 board that also runs on a PC: services with event queues, a button and an
-- LED, a Wi-Fi station and a remote console over TCP.
--
-- The program and this library. Each service of main/src/core is a task that runs `Service_Main`: it
-- takes events from its queue and calls the handler of the service. main/main.c (on the device) and
-- emulator/main.c (on a PC) start the services. The button driver and the Wi-Fi driver put events into
-- the queues of the HMI and of the core service; the HMI sets the colour of the LED; the core service
-- starts the remote console once there is an address. Queues, semaphores and tasks come from an adapter,
-- main/src/adapter/esp32 or main/src/adapter/posix.
--
--   Common      the shared tests, lists and outcomes (no code of the program)
--   Error       main/src/core/error.h: ErrorCode, ErrorToString
--   Defines     main/src/core/defines.h: the bit macros are `bit_set`, `bit_clr`, `bit_isset` and `bit_sete`,
--               ON_ERROR_REBOOT and its relatives `on_error_reboot`, ..., the allocation helpers `xmalloc`,
--               `xcalloc`, `buffer_alloc` and `buffer_free`, on a memory of blocks of bytes;
--               Choices is MIN, MAX and the early returns
--   Logging     main/src/adapter/logging.h without ESP-IDF: the macros LOG_ERROR to LOG_VERBOSE are `log`
--   Adapter     main/src/adapter/queue.h: the contract that the services rely on, as a record; Agree is
--               about any two implementations of it
--   Posix.Time  struct timeval and struct timespec of the two modules below
--   Posix.Queue main/src/adapter/posix/queue.c: Queue_New is `new`, Queue_Send `send`, Queue_Receive
--               `receive`, whose two halves are `deadline` and `take_message`; Refine, Receiving and Trace
--               compare it with a list, Adapter fills the record of Adapter, Wakeup interleaves
--               threads, Memory is Queue_Delete (`delete`) with the blocks that belong to a queue, Abstract
--               the type of the queues up to what calls can tell apart, and of the bounded lists
--   Posix.Semaphore
--               main/src/adapter/posix/semaphore.c: Semaphore_New, Semaphore_ElapsedTimeMs,
--               Semaphore_Take, Semaphore_Give, Semaphore_Free are `new`, `elapsed_ms`, `take`, `give`,
--               `free`; Threads interleaves threads that take and give
--   Posix.Task  main/src/adapter/posix/task.c: Task_Create, Task_Delete, Task_GetSelf, Task_GetName are
--               `create`, `delete`, `get_self`, `get_name`, on a heap of task blocks and the table TASKS
--               (Race takes the search of Task_Create place by place, for two threads; Registry is the
--               map from threads to names that the table stands for; Early is the new thread before
--               Task_Create has stored its handle; Sleep is Task_SleepMs)
--   Posix.Board main/src/adapter/posix/led.c, btn.c and wifi.c, which do nothing
--   Wifi, Esp32.Wifi
--               main/src/adapter/wifi.h and main/src/adapter/esp32/wifi.c: Wifi_EventHandler is `handle`,
--               WiFi_SendEvent `send_event`, WiFi_StopSta `stop_sta`; in Station, WiFi_Init, WiFi_StartSta and
--               Core_Init are `wifi_init`, `start_sta`, `core_init`
--   Esp32.Queue, Esp32.Semaphore, Esp32.Task
--               main/src/adapter/esp32/queue.c, semaphore.c and task.c, wrappers of FreeRTOS, which is a
--               record of its calls and of what it documents; Contract fills the record of Adapter,
--               `start_service` of Task is Service_Start over the device's tasks
--   Esp32.Board main/src/adapter/esp32/led.c and btn.c: Led_Init, Led_SetLedColor, Btn_Init and the
--               interrupt handler are `led_init`, `set_led_color`, `btn_init`, `gpio_isr_handler`
--   Service     main/src/core/service.c and service.h: Service_Start, Service_Stop and Service_Notify
--               are `start`, `stop` and `notify`; Service.Main is Service_Main, part by part; Delivery
--               interleaves notifications, stops and turns of the loop on one queue, Restart interleaves
--               starts, stops and tasks that leave the loop
--   Hmi         main/src/hmi/hmi.c: Hmi_HandleEvent and Hmi_Init over any LED and button drivers; Delivered
--               puts them behind a queue
--   App         main/src/core/service_core.c, main/main.c and emulator/main.c; Network follows an address
--               from the Wi-Fi driver through the core service's queue; OnPc is Service_Start over the queues and
--               tasks of the PC, Emulator the main of the emulator over them, and RemoteConsole the remote
--               console as a service; Core is the core service as a task, Radio what the radio brings it;
--               Device is app_main over FreeRTOS; Handover a start while the old task of a service ends
--   Console     main/src/console/console.c and cmd_system.c; Console.Net is net_console.c, with
--               Wire for what reaches the client, which is Console_WriteFd, Split for commands in several
--               reads, and Session for all of a client's reads
--
-- How state and failure are modelled. A `struct` is a record and a pointer that may be NULL an Option. A
-- function that changes a struct returns the new one. An `Outcome` is a result, an `abort` (a failed
-- assertion, or the reboot of ON_ERROR_REBOOT and its relatives in main/src/core/defines.h) or a `fault`
-- (an access through an invalid pointer or past a buffer). C strings are lists of bytes without the
-- terminator. Machine integers wrap where the source's do: `size_t` and `uint64_t` sums are taken modulo
-- 2 ^ 64, and a useconds_t has 32 bits. The log lines of the other files are left out.
--
-- What the program does not implement is an argument: the results of the pthread calls, of malloc, of
-- gettimeofday, of the sockets and of write, of ESP-IDF, and what other threads do while a thread waits.
-- Theorems name what they use of it: IsClockTime is what gettimeofday documents, and the refusal of a
-- full second of nanoseconds is what POSIX says of pthread_cond_timedwait. Where one thread alone uses a
-- queue, `alone` is that call: it refuses such a deadline, and times out at any other. The functions of the C library
-- that only compute (strtok_r, strcasecmp, strcpy, vsnprintf with %s) are modelled as the source uses them.
--
-- Bounds and fuel. The loop on the nanoseconds of a deadline has fuel 2; `deadline-ns` shows that its own
-- test has ended it. The loop that reads out a full queue has a round more than the queue's 20 places;
-- `notify_lem` shows that it ends. All other loops recur on a list: of the messages, of the bytes of a
-- line, or of what the environment does next. A list of rounds that ends where the code would wait gives
-- `busy` in Service.Main and `none` in `take`, and the theorems say when that does not happen. The queue
-- theorems assume fewer than 2 ^ 62 places; the program uses 20.
--
-- Not modelled: the configuration structs that are handed to ESP-IDF; the macros of defines.h that only
-- stand for an attribute or a text; the tests and the scripts. In the functions of the
-- other files the allocation helpers appear by their result: a failure is the `abort` of the caller.
pub mod Common
pub mod Error
pub mod Defines
pub mod Logging
pub mod Adapter
pub mod Posix
pub mod Wifi
pub mod Esp32
pub mod Service
pub mod Hmi
pub mod App
pub mod Console
